-- ===== src/SingleFlight/Leases.antt =====
-- Any interleaving of the callers of src/singleflight/RedisSingleFlightCoordinator.ts: of two workers that run
-- for one key, one has lost its lease, since it expired.
use layercache.Base.{
  ℕ, ◌<◌, Bool, true, false, ite, Bool-cases, Option-cases, inl, inr, some, List, [], ◌∷◌, keep,
  map, All, ◌≡◌, ◌≢◌, ap, refl, arith,
}
use layercache.Redis.{Text}
use layercache.SingleFlight.{
  Strings, Coordinator, lock_key, holds, release_script, renew_script, IsLawful,
}

-- A worker that runs, and whether its lease has lapsed.
pub record Flight : Type 0 where
  pub key : Text
  pub token : Text
  pub lapsed : Bool

module _ {W : Type 0} (dec : Discrete Text) (redis : Strings W) (c : Coordinator) where
  abbrev pub mark_lapsed : Text → Flight → Flight
  mark_lapsed key f = record f { lapsed = ite (dec (lock_key c f.key) key) true f.lapsed }

  abbrev pub other_than : Text → Flight → Bool
  other_than token f = ite (dec f.token token) false true

  -- The world and the workers that run in it. Tokens are new, as those of `randomUUID` are.
  pub data Step (w : W) (fs : List Flight) : W → List Flight → Type 0 where
    acquires :
        (key token : Text) (lease_ms : ℕ)
        → All (λ f. f.token ≢ token) fs
        → (redis.set_px_nx (lock_key c key) token lease_ms w).0 ≡ true
        → Step w fs
            (redis.set_px_nx (lock_key c key) token lease_ms w).1
            (record { key = key; token = token; lapsed = false } ∷ fs)
    -- The lock is taken, or the answer comes too late, so that no worker runs.
    waits :
        (key token : Text) (lease_ms : ℕ)
        → Step w fs (redis.set_px_nx (lock_key c key) token lease_ms w).1 fs
    renews :
        (key token : Text) (lease_ms : ℕ)
        → 0 < lease_ms
        → Step w fs (renew_script dec redis (lock_key c key) token lease_ms w) fs
    ends :
        (key token : Text)
        → Step w fs (release_script dec redis (lock_key c key) token w) (keep (other_than token) fs)
    lapses : (k : Text) → Step w fs (redis.del k w) (map (mark_lapsed k) fs)

  pub data Reach (w₀ : W) : W → List Flight → Type 0 where
    start : Reach w₀ w₀ []
    later : {w w' : W} {fs fs' : List Flight} → Reach w₀ w fs → Step w fs w' fs' → Reach w₀ w' fs'

  -- A lease that has not lapsed is in Redis.
  abbrev pub HasLease : W → Flight → Type 0
  HasLease w f = f.lapsed ≡ false → redis.get (lock_key c f.key) w ≡ some f.token

  -- No two workers have one token.
  abbrev pub Apart : List Flight → Type 0
  Apart [] = Unit
  Apart (f ∷ fs) = All (λ g. g.token ≢ f.token) fs × Apart fs

  All-imp :
      (P Q : Flight → Type 0) (fs : List Flight) → ((f : Flight) → P f → Q f) → All P fs → All Q fs
  All-imp P Q [] h a = tt
  All-imp P Q (f ∷ fs) h a = (h f a.0, All-imp P Q fs h a.1)

  All-keep :
      (P Q : Flight → Type 0) (p : Flight → Bool) (fs : List Flight)
      → ((f : Flight) → p f ≡ true → P f → Q f)
      → All P fs
      → All Q (keep p fs)
  All-keep P Q p [] h a = tt
  All-keep P Q p (f ∷ fs) h a = elim (Bool-cases (p f)) [
    | inl e ↦ rw e (h f e a.0, All-keep P Q p fs h a.1)
    | inr e ↦ rw e (All-keep P Q p fs h a.1)
  ]

  All-map :
      (P Q : Flight → Type 0) (g : Flight → Flight) (fs : List Flight)
      → ((f : Flight) → P f → Q (g f))
      → All P fs
      → All Q (map g fs)
  All-map P Q g [] h a = tt
  All-map P Q g (f ∷ fs) h a = (h f a.0, All-map P Q g fs h a.1)

  module _ (laws : IsLawful dec redis) where
    -- A taken lock stays as it is.
    set-HasLease :
        (key token : Text) (lease_ms : ℕ) (w : W) (f : Flight)
        → HasLease w f
        → HasLease (redis.set_px_nx (lock_key c key) token lease_ms w).1 f
    set-HasLease key token lease_ms w f h l = elim (Option-cases (redis.get (lock_key c key) w)) [
      | inl e ↦
          ground (
            arith,
            h l,
            e,
            (laws.set-free (lock_key c key) token lease_ms w e).1 (lock_key c f.key),
          )
      | inr u ↦ ground (
        arith,
        h l,
        (laws.set-taken (lock_key c key) token u.0 lease_ms w u.1).1 (lock_key c f.key),
      )
    ]

    acquired-HasLease :
        (key token : Text) (lease_ms : ℕ) (w : W)
        → (redis.set_px_nx (lock_key c key) token lease_ms w).0 ≡ true
        → redis.get (lock_key c key) (redis.set_px_nx (lock_key c key) token lease_ms w).1
          ≡ some token
    acquired-HasLease key token lease_ms w ok = elim (Option-cases (redis.get (lock_key c key) w)) [
      | inl e ↦
          ground (arith, (laws.set-free (lock_key c key) token lease_ms w e).1 (lock_key c key))
      | inr u ↦
          absurd (ground (arith, ok, (laws.set-taken (lock_key c key) token u.0 lease_ms w u.1).0))
    ]

    renew-HasLease :
        (key token : Text) (lease_ms : ℕ) (w : W) (f : Flight)
        → 0 < lease_ms
        → HasLease w f
        → HasLease (renew_script dec redis (lock_key c key) token lease_ms w) f
    unfolding renew_script
    renew-HasLease key token lease_ms w f pos h l =
        ground (arith, h l, laws.get-pexpire (lock_key c key) lease_ms w (lock_key c f.key) pos)

    holds_other :
        (k token u : Text) (w : W)
        → redis.get k w ≡ some u
        → u ≢ token
        → holds dec redis k token w ≡ false
    unfolding holds
    holds_other k token u w e n = rw (holds, e) (ground (arith, n))

    -- A release takes no lock of another token away.
    release-HasLease :
        (key token : Text) (w : W) (f : Flight)
        → f.token ≢ token
        → HasLease w f
        → HasLease (release_script dec redis (lock_key c key) token w) f
    unfolding release_script
    release-HasLease key token w f apart h l =
        let k = lock_key c f.key in
        let deleted = laws.get-del (lock_key c key) w k in
        elim (dec (lock_key c key) k) [
          | yes e ↦ rw (e, holds_other k token f.token w (h l) apart) (h l)
          | no n ↦ ground (arith, n, deleted, h l)
        ]

    lapse-HasLease :
        (k : Text) (w : W) (f : Flight) → HasLease w f → HasLease (redis.del k w) (mark_lapsed k f)
    lapse-HasLease k w f h l = ground (arith, h, l, laws.get-del k w (lock_key c f.key))

    pub Step-HasLease :
        (w w' : W) (fs fs' : List Flight)
        → Step w fs w' fs'
        → All (HasLease w) fs
        → All (HasLease w') fs'
    Step-HasLease w w' fs fs' (acquires key token ms new ok) h = (
      λ l. acquired-HasLease key token ms w ok,
      All-imp (HasLease w) (HasLease _) fs (set-HasLease key token ms w) h,
    )
    Step-HasLease w w' fs fs' (waits key token ms) h =
        All-imp (HasLease w) (HasLease _) fs (set-HasLease key token ms w) h
    Step-HasLease w w' fs fs' (renews key token ms pos) h =
        All-imp (HasLease w) (HasLease _) fs (λ f. renew-HasLease key token ms w f pos) h
    Step-HasLease w w' fs fs' (ends key token) h =
        All-keep (HasLease w) (HasLease _) (other_than token) fs
          (λ f e. release-HasLease key token w f (ground (arith, e))) h
    Step-HasLease w w' fs fs' (lapses k) h =
        All-map (HasLease w) (HasLease _) (mark_lapsed k) fs (lapse-HasLease k w) h

    keep-Apart : (p : Flight → Bool) (fs : List Flight) → Apart fs → Apart (keep p fs)
    keep-Apart p [] a = tt
    keep-Apart p (f ∷ fs) a = elim (Bool-cases (p f)) [
      | inl e ↦ rw e (
        All-keep (λ g. g.token ≢ f.token) (λ g. g.token ≢ f.token) p fs (λ g q n. n) a.0,
        keep-Apart p fs a.1,
      )
      | inr e ↦ rw e (keep-Apart p fs a.1)
    ]

    map-Apart :
        (g : Flight → Flight) (fs : List Flight)
        → ((f : Flight) → (g f).token ≡ f.token)
        → Apart fs
        → Apart (map g fs)
    map-Apart g [] same a = tt
    map-Apart g (f ∷ fs) same a = (
      All-map (λ h. h.token ≢ f.token) (λ h. h.token ≢ (g f).token) g fs
          (λ h n. ground (arith, n, same h, same f)) a.0,
      map-Apart g fs same a.1,
    )

    Step-Apart : (w w' : W) (fs fs' : List Flight) → Step w fs w' fs' → Apart fs → Apart fs'
    Step-Apart w w' fs fs' (acquires key token ms new ok) a = (new, a)
    Step-Apart w w' fs fs' (waits key token ms) a = a
    Step-Apart w w' fs fs' (renews key token ms pos) a = a
    Step-Apart w w' fs fs' (ends key token) a = keep-Apart (other_than token) fs a
    Step-Apart w w' fs fs' (lapses k) a = map-Apart (mark_lapsed k) fs (λ f. refl) a

    -- Of two workers for one key at most one has a lease that has not lapsed.
    abbrev pub Exclusive : List Flight → Type 0
    Exclusive [] = Unit
    Exclusive (f ∷ fs) =
        All (λ g. g.key ≡ f.key → f.lapsed ≡ false → g.lapsed ≡ true) fs × Exclusive fs

    exclusive_with :
        (w : W) (f : Flight) (fs : List Flight)
        → HasLease w f
        → All (HasLease w) fs
        → All (λ g. g.token ≢ f.token) fs
        → All (λ g. g.key ≡ f.key → f.lapsed ≡ false → g.lapsed ≡ true) fs
    exclusive_with w f [] h hs a = tt
    exclusive_with w f (g ∷ fs) h hs a = (
      λ same on. elim (Bool-cases g.lapsed) [
        | inl e ↦ e
        | inr e ↦
            absurd (ground (arith, h on, hs.0 e, ap (λ k. redis.get (lock_key c k) w) same, a.0))
      ],
      exclusive_with w f fs h hs.1 a.1,
    )

    held-Exclusive : (w : W) (fs : List Flight) → All (HasLease w) fs → Apart fs → Exclusive fs
    held-Exclusive w [] h a = tt
    held-Exclusive w (f ∷ fs) h a = (exclusive_with w f fs h.0 h.1 a.0, held-Exclusive w fs h.1 a.1)

    reach-HasLease : (w₀ w : W) (fs : List Flight) → Reach w₀ w fs → All (HasLease w) fs × Apart fs
    reach-HasLease w₀ w fs start = (tt, tt)
    reach-HasLease w₀ w fs (later {w = v} {fs = gs} r s) =
        let (h, a) = reach-HasLease w₀ v gs r in
        (Step-HasLease v w gs fs s h, Step-Apart v w gs fs s a)

    -- However the callers, their renewals, releases, timeouts and the expiry of leases interleave: of two
    -- workers that run for one key, one has a lease that has expired meanwhile; and a worker whose lease has
    -- not expired has its token in Redis, whoever else releases. Redis obeys its laws, and tokens are new.
    pub reach-Exclusive :
        (w₀ w : W) (fs : List Flight) → Reach w₀ w fs → Exclusive fs × All (HasLease w) fs
    reach-Exclusive w₀ w fs r =
        let (h, a) = reach-HasLease w₀ w fs r in (held-Exclusive w fs h a, h)
