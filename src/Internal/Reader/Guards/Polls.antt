-- ===== src/Internal/Reader/Guards/Polls.antt =====
-- The wait for another process in src/internal/CacheStackReader.ts ends at its deadline.
use layercache.Base.{
  ℕ, zero, suc, ◌+◌, ◌≤◌, ◌<◌, min, ℤ, pos, negsuc, ◌-ℤ◌, leb_ℤ, pos_part, false, Option, none,
  some, ◌≡◌, refl, Bool-cases, inl, inr, arith,
}
use layercache.Exec.{Result, ok, err, Exec, continue}
use layercache.JsValue.{Value}
use layercache.Internal.Reader.{Reader, Hit, GetOptions, Fetcher, read_from_layers, fresh_only}
use layercache.Internal.Reader.Guards.{poll_loop, after_poll, jitter_single_flight_poll, timeout_ms}

jitter_positive : (random delay : ℕ) → 1 ≤ jitter_single_flight_poll random delay
unfolding jitter_single_flight_poll
jitter_positive random delay = omega arith

positive_part : (z : ℤ) → leb_ℤ z (pos 0) ≡ false → 1 ≤ pos_part z
positive_part (pos n) e = ground (arith, e)
positive_part (negsuc n) e = ground (arith, e)

continue_same :
    {W E A B : Type 0} (x : Result E A × W) (f g : A → Exec W E B)
    → ((a : A) → f a x.1 ≡ g a x.1)
    → continue x f ≡ continue x g
continue_same (ok a, w) f g h = h a
continue_same (err e, w) f g h = refl

module _ {K W E : Type 0} (r : Reader K W E) (key : K) (fetcher : Fetcher W E)
    (o : GetOptions K W E) (time : W → ℕ) where
  -- The clock reads the time, and a sleep takes as long as it is asked to.
  pub record HasClock : Type 0 where
    pub now_lem : (w : W) → r.services.now w ≡ pos (time w)
    pub read_later : (w : W) → time w ≤ time (read_from_layers r key o fresh_only w).1
    pub sleep_lem :
        (ms : ℕ) (w : W) → (v : W) × (r.sleep ms w ≡ (ok tt, v)) × (time w + ms ≤ time v)

  module _ (h : HasClock) where
    after_poll_same :
        (d p n : ℕ) (f g : Exec W E (Option Value)) (v : W) (found : Option (Hit K W E))
        → d < suc n + time v
        → ((u : W) → d < n + time u → f u ≡ g u)
        → after_poll r key fetcher o (pos d) p f found v
          ≡ after_poll r key fetcher o (pos d) p g found v
    after_poll_same d p n f g v (some hit) le same = refl
    after_poll_same d p n f g v none le same =
        elim (Bool-cases (leb_ℤ (pos d -ℤ r.services.now v) (pos 0))) [
          | inl e ↦ rw e refl
          | inr e ↦
              let ms =
                min (jitter_single_flight_poll (r.random v) p)
                  (pos_part (pos d -ℤ r.services.now v)) in
              let (u, s, later) = h.sleep_lem ms v in
              let long : 1 ≤ ms = omega (
                arith,
                jitter_positive (r.random v) p,
                positive_part (pos d -ℤ r.services.now v) e,
              ) in
              rw (e, s) (same u (omega (arith, le, later, long)))
        ]

    -- Where the clock does not go back and a sleep lasts as long as it should: more rounds than there
    -- are milliseconds to the deadline change nothing, so the loop ends within them.
    pub poll_loop-enough :
        (m n d p : ℕ) (w : W)
        → n ≤ m
        → d < n + time w
        → poll_loop r key fetcher o m (pos d) p w ≡ poll_loop r key fetcher o n (pos d) p w
    unfolding poll_loop
    poll_loop-enough zero zero d p w nm le = refl
    poll_loop-enough (suc m) zero d p w nm le = ground (arith, h.now_lem w)
    poll_loop-enough zero (suc n) d p w nm le = absurd (omega (arith, nm))
    poll_loop-enough (suc m) (suc n) d p w nm le =
        elim (Bool-cases (leb_ℤ (pos d) (r.services.now w))) [
          | inl e ↦ rw (e, poll_loop) refl
          | inr e ↦
              rw (e, poll_loop)
                (continue_same (read_from_layers r key o fresh_only w) _ _ (λ found.
                  after_poll_same d p n _ _ (read_from_layers r key o fresh_only w).1 found
                    (omega (arith, le, h.read_later w))
                    (λ u less. poll_loop-enough m n d _ u (omega (arith, nm)) less)))
        ]

    -- Where the clock does not go back and a sleep lasts as long as it should: the rounds that the wait
    -- for another process is given are enough, since any number of rounds more changes nothing.
    pub poll_loop-timeout :
        (m p : ℕ) (w : W)
        → suc (timeout_ms r key fetcher o) ≤ m
        → poll_loop r key fetcher o m (pos (time w + timeout_ms r key fetcher o)) p w
          ≡ poll_loop r key fetcher o
              (suc (timeout_ms r key fetcher o))
              (pos (time w + timeout_ms r key fetcher o))
              p
              w
    poll_loop-timeout m p w le =
        poll_loop-enough m (suc (timeout_ms r key fetcher o)) (time w + timeout_ms r key fetcher o)
          p w le (omega arith)
