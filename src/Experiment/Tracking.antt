-- ===== src/Experiment/Tracking.antt =====
-- The tracker: which replies a latency is taken from, and that it is taken once.
use elodin.Common.{
  ℕ, ◌+◌, ap, Option-cases, inl, inr, ◌-◌, ◌≡◌, ◌≢◌, refl, true, Option, none, some, List, [], ◌∷◌,
  ◌++◌, ◌==◌, if◌then◌else◌, Bytes, ok, arith,
}
use elodin.DnsWire.{Reply, parse_reply}
use elodin.Experiment.Client.{
  Stats, Tracker, sent_at, delete, put, took, add_rcode, add_latency, count_reply, latency_of,
  record_reply, receive, receive_parsed,
}

sent_at-delete : (id : ℕ) (sent : List (ℕ × ℕ)) → sent_at id (delete id sent) ≡ none
unfolding sent_at delete
sent_at-delete id [] = refl
sent_at-delete id ((k, at) ∷ sent) = grind (arith, sent_at-delete id sent)

sent_at-delete_other :
    (id k : ℕ) (sent : List (ℕ × ℕ)) → k ≢ id → sent_at k (delete id sent) ≡ sent_at k sent
unfolding sent_at delete
sent_at-delete_other id k [] n = refl
sent_at-delete_other id k ((j, at) ∷ sent) n = grind (arith, sent_at-delete_other id k sent n)

since : Option ℕ → ℕ → Option ℕ
since none now = none
since (some at) now = some (now - at)

abbrev tracking : List (ℕ × ℕ) → Tracker
tracking sent = record { sent = sent; on = true }

tracking-eq : (t : Tracker) → t.on ≡ true → t ≡ tracking t.sent
tracking-eq t on = ap (λ b. record { sent = t.sent; on = b }) on

put-tracking :
    (sent : List (ℕ × ℕ)) (id at : ℕ)
    → put (tracking sent) id at ≡ tracking ((id, at) ∷ delete id sent)
unfolding put
put-tracking sent id at = refl

took-tracking :
    (sent : List (ℕ × ℕ)) (id now : ℕ)
    → took (tracking sent) id now ≡ (tracking (delete id sent), since (sent_at id sent) now)
unfolding took since
took-tracking sent id now = elim (Option-cases (sent_at id sent)) [
  | inl h ↦ rw h refl
  | inr (at, h) ↦ rw h refl
]

sent_at-first : (id at : ℕ) (sent : List (ℕ × ℕ)) → sent_at id ((id, at) ∷ sent) ≡ some at
unfolding sent_at
sent_at-first id at sent = ground arith

sent_at-later :
    (id k at : ℕ) (sent : List (ℕ × ℕ)) → k ≢ id → sent_at k ((id, at) ∷ sent) ≡ sent_at k sent
unfolding sent_at
sent_at-later id k at sent n = ground arith

took-put-tracking :
    (sent : List (ℕ × ℕ)) (id k at now later : ℕ)
    → k ≢ id
    → let t = tracking sent in
      ((took (put t id at) id now).1 ≡ some (now - at))
      × ((took (took (put t id at) id now).0 id later).1 ≡ none)
      × ((took (put t id at) k now).1 ≡ (took t k now).1)
      × ((took (took (put t id at) id now).0 k later).1 ≡ (took t k later).1)
unfolding since
took-put-tracking sent id k at now later n =
    let asked = (id, at) ∷ delete id sent in
    rw
      (
        put-tracking sent id at,
        took-tracking asked id now,
        took-tracking (delete id asked) id later,
        took-tracking asked k now,
        took-tracking sent k now,
        took-tracking (delete id asked) k later,
        took-tracking sent k later,
        sent_at-first id at (delete id sent),
        sent_at-delete id asked,
        sent_at-delete_other id k asked n,
        sent_at-later id k at (delete id sent) n,
        sent_at-delete_other id k sent n,
      )
      (refl, refl, refl, refl)

-- A tracker that is on gives for a query just sent the time since then, once; and what it gives for any
-- other id is unchanged by the query and by its reply.
pub took-put :
    (t : Tracker) (id k at now later : ℕ)
    → t.on ≡ true
    → k ≢ id
    → ((took (put t id at) id now).1 ≡ some (now - at))
      × ((took (took (put t id at) id now).0 id later).1 ≡ none)
      × ((took (put t id at) k now).1 ≡ (took t k now).1)
      × ((took (took (put t id at) id now).0 k later).1 ≡ (took t k later).1)
unfolding took put
took-put t id k at now later on n =
    rw (tracking-eq t on) (took-put-tracking t.sent id k at now later n)

filed-lat :
    (st : Stats) (rep : Reply) (size d : ℕ)
    → let seen = record st { replies = st.replies + 1; bytes_in = st.bytes_in + size } in
      (latency_of rep (some d) (count_reply rep (add_rcode seen rep.rcode))).lat
      ≡ (if rep.truncated then st.lat else if rep.rcode == 0 then st.lat ++ d ∷ [] else st.lat)
unfolding latency_of count_reply add_rcode add_latency
filed-lat st rep size d = ground arith

-- With a tracker that is on, the reply to a query just sent adds its latency if it is a full one, and
-- adds none if it is truncated.
pub receive-put :
    (st : Stats) (t : Tracker) (msg : Bytes) (rep : Reply) (size at now : ℕ)
    → t.on ≡ true
    → parse_reply msg ≡ ok rep
    → (receive st size msg (put t rep.id at) now).0.lat ≡ (
        if rep.truncated
        then st.lat
        else if rep.rcode == 0
        then st.lat ++ (now - at) ∷ []
        else st.lat)
unfolding receive receive_parsed record_reply since
receive-put st t msg rep size at now on h =
    rw
      (
        h,
        tracking-eq t on,
        put-tracking t.sent rep.id at,
        took-tracking ((rep.id, at) ∷ delete rep.id t.sent) rep.id now,
        sent_at-first rep.id at (delete rep.id t.sent),
      )
      (filed-lat st rep size (now - at))
