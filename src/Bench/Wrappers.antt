-- ===== src/Bench/Wrappers.antt =====
-- bench/cmd/bench/server.go: the search for the server behind the wrappers of a command line.
--
-- The texts under /proc are input. The fuel is a number of wrappers.
use elodin.Common.{
  ℕ, zero, suc, Bool, not, Option, none, some, [], ◌∷◌, any, if◌then◌else◌, Bytes, codes, value,
}
use elodin.Text.{str_eq, fields, trim_space}
use elodin.ProcStat.{parse_int}

-- the wrappers that a command line can start with
unfoldable pub is_wrapper : Bytes → Bool
unfolding str_eq
is_wrapper comm =
    any (str_eq comm)
      (codes "sudo" ∷ codes "unshare" ∷ codes "sh" ∷ codes "env" ∷ codes "taskset" ∷ [])

-- the only child that a process has
unfoldable pub only_child : Option Bytes → Option ℕ
unfolding fields
only_child none = none
only_child (some kids) = elim (fields kids) [
  | [] ↦ none
  | f ∷ fs ↦ elim fs [ [] ↦ value (parse_int f) | g ∷ gs ↦ none ]
]

-- `serverPid` over the texts of /proc/<pid>/comm and /proc/<pid>/task/<pid>/children; `none` where it
-- runs out of fuel
unfoldable pub server_pid : (ℕ → Option Bytes) → (ℕ → Option Bytes) → ℕ → ℕ → Option ℕ
unfolding is_wrapper only_child trim_space
server_pid comm children zero pid = none
server_pid comm children (suc fuel) pid = elim (comm pid) [
  | none ↦ some pid
  | some text ↦
      if not (is_wrapper (trim_space text)) then some pid else elim (only_child (children pid)) [
        | none ↦ some pid
        | some next ↦ server_pid comm children fuel next
      ]
]
