-- ===== src/Queue/Service/Drain.antt =====
-- The queue is emptied: while the passes of `mq_service` are far enough apart, each of them acts as
-- long as a message is stored.
use tox_relayer.Prelude.{
  ℕ, ◌+◌, ◌*◌, ◌≤◌, ◌<◌, ◌≡◌, refl, ◌⊎◌, inl, inr, List, [], ◌∷◌, arith, if-elim, ◌==◌, length,
  Bool-cases,
}
use tox_relayer.Prelude.Int.{ℤ, pos, ◌+ℤ◌, ◌≤ℤ◌, int_laws}
use tox_relayer.Queue.{Config, Queue, Outcome}
use tox_relayer.Queue.Invariant.{IsConfig, IsQueue}
use tox_relayer.Queue.Service.{service}
use tox_relayer.Queue.Service.Laws.{service_lem}
use tox_relayer.Queue.Service.Effort.{Pass, busy_passes, busy_passes-bounded}
use tox_relayer.Queue.Service.Quiet.{IsQuiet, IsQuiet-mono, service-IsQuiet}
use tox_relayer.Queue.Service.Busy.{service-Busy}

-- Passes at least an acknowledgement timeout apart, the first one as long after `t`.
abbrev pub Spaced : Config → ℤ → List Pass → Type 0
Spaced c t [] = Unit {0}
Spaced c t (p ∷ ps) = (t +ℤ pos c.ack_timeout ≤ℤ p.now) × Spaced c p.now ps

unfoldable pub after_passes : Config → Queue → List Pass → Queue
after_passes c q [] = q
after_passes c q (p ∷ ps) = after_passes c (service c p.tx p.now q).0 ps

module _ (c : Config) (ok_c : IsConfig c) (backoff : c.retry_backoff ≤ c.ack_timeout) where
  service-empty :
      (tx : ℤ → List ℕ → ℕ → ℤ) (now : ℤ) (q : Queue)
      → q.count ≡ 0
      → (service c tx now q).0.count ≡ 0
  unfolding service
  service-empty tx now q z =
      if-elim (λ (r : Queue × Outcome). r.0.count ≡ 0) (q.count == 0) (λ _. z)
        (λ n. absurd (ground (arith, n, z)))

  after_passes-empty : (ps : List Pass) (q : Queue) → q.count ≡ 0 → (after_passes c q ps).count ≡ 0
  unfolding after_passes
  after_passes-empty [] q z = z
  after_passes-empty (p ∷ ps) q z =
      after_passes-empty ps (service c p.tx p.now q).0 (service-empty p.tx p.now q z)

  all_busy :
      (ps : List Pass) (t : ℤ) (q : Queue)
      → IsQueue c q
      → IsQuiet t q.ring
      → Spaced c t ps
      → ((after_passes c q ps).count ≡ 0) ⊎ (busy_passes c q ps ≡ length ps)
  unfolding after_passes busy_passes
  all_busy [] t q v k s = inr refl
  all_busy (p ∷ ps) t q v k s =
      let q' = (service c p.tx p.now q).0 in
      let calm =
        service-IsQuiet c ok_c p.tx p.now q v
          (IsQuiet-mono t p.now q.ring (omega (int_laws, s.0)) k) in
      let rest = all_busy ps p.now q' (service_lem c ok_c p.tx p.now q v).0 calm s.1 in
      elim (Bool-cases (q.count == 0)) [
        | inl z ↦ inl (after_passes-empty ps q' (service-empty p.tx p.now q (ground (arith, z))))
        | inr z ↦ elim rest [
          | inl done ↦ inl done
          | inr all ↦ inr (
              omega (
                arith,
                all,
                service-Busy c ok_c p.tx p.now t s.0 backoff q v k (ground (arith, z)),
              ))
        ]
      ]

  -- A well-formed queue, none of whose messages was tried after `t`, is empty after more than
  -- `2 * max_attempts + 1` passes for each of its messages when nothing new is stored and no
  -- confirmation comes, whatever the transport answers, if the passes are at least an
  -- acknowledgement timeout apart, the first one as long after `t`, and the backoff is no longer
  -- than that timeout.
  pub after_passes-drain :
      (ps : List Pass) (t : ℤ) (q : Queue)
      → IsQueue c q
      → IsQuiet t q.ring
      → Spaced c t ps
      → (2 * c.max_attempts + 1) * q.count < length ps
      → (after_passes c q ps).count ≡ 0
  after_passes-drain ps t q v k s n = elim (all_busy ps t q v k s) [
    | inl done ↦ done
    | inr all ↦ absurd (omega (arith, n, all, busy_passes-bounded c ok_c ps q v))
  ]
