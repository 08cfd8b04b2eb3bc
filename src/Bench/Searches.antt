-- ===== src/Bench/Searches.antt =====
-- The search for the server behind the wrappers ends.
use elodin.Common.{
  ℕ, ◌≡◌, true, false, Bool, List, [], ◌∷◌, any, codes, Option, none, some, Bytes, ◌⊎◌,
}
use elodin.Text.{str_eq, trim_space}
use elodin.Bench.Wrappers.{only_child}

-- the commands that a server can be behind
abbrev wrappers : List Bytes
wrappers = codes "sudo" ∷ codes "unshare" ∷ codes "sh" ∷ codes "env" ∷ codes "taskset" ∷ []

-- whether a process has the name of one
abbrev pub wraps : Bytes → Bool
wraps text = any (str_eq (trim_space text)) wrappers

-- a process that is no wrapper, that is gone, or that has not one child
abbrev pub IsServer : (ℕ → Option Bytes) → (ℕ → Option Bytes) → ℕ → Type 0
IsServer comm children p = elim (comm p) [
  | none ↦ Unit
  | some text ↦ (wraps text ≡ false) ⊎ (only_child (children p) ≡ none)
]

-- what the search finds from a process: the process itself if it is the server, or what it finds from
-- the only child of one that is a wrapper
pub data Finds (comm children : ℕ → Option Bytes) : ℕ → ℕ → Type 0 where
  here : {p : ℕ} → IsServer comm children p → Finds comm children p p
  behind :
      {pid next p : ℕ} (text : Bytes)
      → comm pid ≡ some text
      → wraps text ≡ true
      → only_child (children pid) ≡ some next
      → Finds comm children next p
      → Finds comm children pid p
