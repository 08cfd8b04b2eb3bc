-- ===== src/Experiment/Pairing.antt =====
-- The arms with the limiter that go with those without it.
use elodin.Common.{
  ℕ, ◌≡◌, refl, true, false, none, some, List, [], ◌∷◌, ◌++◌, All, All-append, get_elem?, Bytes,
}
use elodin.Experiment.Matrix.{FailSpec, Arm}
use elodin.Experiment.Loads.{Flags, baseline_arms, prefix_arms, transport_arms, volume_arms}
use elodin.Experiment.Holders.{
  doh_arms, connection_arms, handshake_default_arms, handshake_share_arms, handshake_arms,
}
use elodin.Experiment.Plan.{v6_arms, reader_arms, soak_arms, upstream_fail_arms, all_arms}
use elodin.Experiment.Placing.{absurd_on}

absurd_some {ℓ} : {A : Type ℓ} {f : FailSpec} → some f ≡ none → A
absurd_some e = absurd cc

module _ (f : Flags) where
  -- an arm without the limiter, unless it has an outage, has one with the limiter among them that is
  -- the same but for its name and its question
  abbrev pub HasLimited : Arm → Type 0
  HasLimited a =
      a.limiter ≡ false
      → a.fail ≡ none
      → (name question : Bytes) × (i : ℕ) × (get_elem? (all_arms f) i
          ≡ some (record a {
            name = name;
            question = question;
            limiter = true;
            rps = f.rps;
            slip = f.slip;
          }))

  baseline_arms-HasLimited : All HasLimited (baseline_arms f)
  unfolding baseline_arms
  baseline_arms-HasLimited = (λ off free. absurd_on off, (λ off free. absurd_on off, tt))

  prefix_arms-HasLimited : All HasLimited (prefix_arms f)
  unfolding prefix_arms all_arms
  prefix_arms-HasLimited = (
    λ off free. absurd_on off,
    (λ off free. (_, _, 2, refl), (λ off free. absurd_on off, (λ off free. (_, _, 4, refl), tt))),
  )

  transport_arms-HasLimited : All HasLimited (transport_arms f)
  unfolding transport_arms all_arms
  transport_arms-HasLimited = (
    λ off free. absurd_on off,
    (λ off free. (_, _, 6, refl), (λ off free. absurd_on off, (λ off free. absurd_on off, tt))),
  )

  volume_arms-HasLimited : All HasLimited (volume_arms f)
  unfolding volume_arms all_arms
  volume_arms-HasLimited = (
    λ off free. (_, _, 11, refl),
    (
      λ off free. absurd_on off,
      (λ off free. absurd_on off, (λ off free. absurd_on off, (λ off free. absurd_on off, tt))),
    ),
  )

  doh_arms-HasLimited : All HasLimited (doh_arms f)
  unfolding doh_arms all_arms
  doh_arms-HasLimited = (
    λ off free. absurd_on off,
    (
      λ off free. absurd_on off,
      (
        λ off free. absurd_on off,
        (
          λ off free. absurd_on off,
          (λ off free. (_, _, 18, refl), (λ off free. absurd_on off, tt)),
        ),
      ),
    ),
  )

  connection_arms-HasLimited : All HasLimited (connection_arms f)
  unfolding connection_arms
  connection_arms-HasLimited =
      (λ off free. absurd_on off, (λ off free. absurd_on off, (λ off free. absurd_on off, tt)))

  handshake_default_arms-HasLimited : All HasLimited (handshake_default_arms f)
  unfolding handshake_default_arms
  handshake_default_arms-HasLimited = (
    λ off free. absurd_on off,
    (
      λ off free. absurd_on off,
      (
        λ off free. absurd_on off,
        (
          λ off free. absurd_on off,
          (λ off free. absurd_on off, (λ off free. absurd_on off, (λ off free. absurd_on off, tt))),
        ),
      ),
    ),
  )

  handshake_share_arms-HasLimited : All HasLimited (handshake_share_arms f)
  unfolding handshake_share_arms
  handshake_share_arms-HasLimited = (λ off free. absurd_on off, (λ off free. absurd_on off, tt))

  reader_arms-HasLimited : All HasLimited (reader_arms f)
  unfolding reader_arms
  reader_arms-HasLimited =
      (λ off free. absurd_on off, (λ off free. absurd_on off, (λ off free. absurd_on off, tt)))

  v6_arms-HasLimited : All HasLimited (v6_arms f)
  unfolding v6_arms all_arms
  v6_arms-HasLimited =
      (λ off free. absurd_on off, (λ off free. (_, _, 36, refl), (λ off free. absurd_on off, tt)))

  upstream_fail_arms-HasLimited : All HasLimited (upstream_fail_arms f)
  unfolding upstream_fail_arms
  upstream_fail_arms-HasLimited = (
    λ off free. absurd_some free,
    (
      λ off free. absurd_some free,
      (
        λ off free. absurd_some free,
        (
          λ off free. absurd_some free,
          (
            λ off free. absurd_some free,
            (
              λ off free. absurd_some free,
              (
                λ off free. absurd_some free,
                (
                  λ off free. absurd_some free,
                  (
                    λ off free. absurd_some free,
                    (λ off free. absurd_some free, (λ off free. absurd_some free, tt)),
                  ),
                ),
              ),
            ),
          ),
        ),
      ),
    ),
  )

  handshake_arms-HasLimited : All HasLimited (handshake_arms f)
  unfolding handshake_arms
  handshake_arms-HasLimited =
      All-append HasLimited (handshake_default_arms f) (handshake_share_arms f)
        handshake_default_arms-HasLimited handshake_share_arms-HasLimited

  -- the groups of a list of arms, one after the other
  abbrev joined : List (List Arm) → List Arm
  joined [] = []
  joined (g ∷ []) = g
  joined (g ∷ h ∷ groups) = g ++ joined (h ∷ groups)

  joined-HasLimited :
      (groups : List (List Arm))
      → All (λ g. All HasLimited g) groups
      → All HasLimited (joined groups)
  joined-HasLimited [] kept = tt
  joined-HasLimited (g ∷ []) (kept, none_left) = kept
  joined-HasLimited (g ∷ h ∷ groups) (kept, more) =
      All-append HasLimited g (joined (h ∷ groups)) kept (joined-HasLimited (h ∷ groups) more)

  pub all_arms-HasLimited : All HasLimited (all_arms f)
  unfolding all_arms
  all_arms-HasLimited =
      joined-HasLimited
        (baseline_arms f
          ∷ prefix_arms f
          ∷ transport_arms f
          ∷ volume_arms f
          ∷ doh_arms f
          ∷ connection_arms f
          ∷ handshake_arms f
          ∷ reader_arms f
          ∷ v6_arms f
          ∷ upstream_fail_arms f
          ∷ [])
        (
          baseline_arms-HasLimited,
          (
            prefix_arms-HasLimited,
            (
              transport_arms-HasLimited,
              (
                volume_arms-HasLimited,
                (
                  doh_arms-HasLimited,
                  (
                    connection_arms-HasLimited,
                    (
                      handshake_arms-HasLimited,
                      (
                        reader_arms-HasLimited,
                        (v6_arms-HasLimited, (upstream_fail_arms-HasLimited, tt)),
                      ),
                    ),
                  ),
                ),
              ),
            ),
          ),
        )

  pub soak_arms-HasLimited : All HasLimited (soak_arms f)
  unfolding soak_arms
  soak_arms-HasLimited = (λ off free. absurd_on off, tt)
