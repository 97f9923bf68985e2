-- ===== src/Leads/Buckets.antt =====
-- The buckets of the rate limiter cover the requests that were accepted: what a rule writes, and what
-- it leaves.
use coreops_platform.Base.{
  ℕ, suc, ◌+◌, ◌*◌, ◌≤◌, ◌<◌, ◌≡◌, refl, sym, ap, subst, String, Bool, true, false, ◌&&◌, ◌||◌,
  List, [], ◌∷◌, ◌++◌, inl, inr, filter, length, leb, ◌==◌, ==_iff, ==_refl, str_eq, str_eq_iff,
  Bool-cases, arith, if◌then◌else◌,
}
use coreops_platform.Leads.RateLimit.{
  RateLimitRule, Bucket, is_bucket, stamps_of, put_stamps, is_recent, recent_stamps, check_rules,
}

-- How many stamps are at an instant or after it.
abbrev pub count_from : ℕ → List ℕ → ℕ
count_from x [] = 0
count_from x (t ∷ ts) = let rest = count_from x ts in if leb x t then suc rest else rest

count_append : (x now : ℕ) (ts : List ℕ) → count_from x (ts ++ now ∷ []) ≡ count_from x (now ∷ ts)
count_append x now [] = refl
count_append x now (t ∷ ts) = ground (arith, count_append x now ts)

pub count_length : (x : ℕ) (ts : List ℕ) → count_from x ts ≤ length ts
count_length x [] = omega arith
count_length x (t ∷ ts) = ground (arith, count_length x ts)

-- The stamps from a point in the window on are all recent.
count_recent :
    (x now w : ℕ) (ts : List ℕ)
    → now < x + w * 1000000
    → count_from x (filter (is_recent now w) ts) ≡ count_from x ts
count_recent x now w [] h = refl
count_recent x now w (t ∷ ts) h =
    let ih = count_recent x now w ts h in
    elim (Bool-cases (is_recent now w t)) [
      | inl y ↦ elim (Bool-cases (leb x t)) [ inl z ↦ rw (y, z) (ap suc ih) | inr z ↦ rw (y, z) ih ]
      | inr n ↦ let z : leb x t ≡ false = ground arith in rw (n, z) ih
    ]

stamps-put_same :
    (key : String) (w : ℕ) (ts : List ℕ) (bs : List Bucket)
    → stamps_of key w (put_stamps key w ts bs) ≡ ts
stamps-put_same key w ts [] = rw ((str_eq_iff key key).1 refl, ==_refl w) refl
stamps-put_same key w ts (b ∷ bs) = elim (Bool-cases (is_bucket key w b)) [
  | inl y ↦ rw (y, y) refl
  | inr n ↦ rw (n, n) (stamps-put_same key w ts bs)
]

and_parts : (a b : Bool) → (a && b) ≡ true → (a ≡ true) × (b ≡ true)
and_parts true b h = (refl, h)
and_parts false b h = cc

other_bucket :
    (key other : String) (w v : ℕ) (b : Bucket)
    → is_bucket key w b ≡ true
    → (str_eq key other && w == v) ≡ false
    → is_bucket other v b ≡ false
other_bucket key other w v b y n =
    let (k, e) = and_parts (str_eq b.key key) (b.window == w) y in
    rw ((str_eq_iff b.key key).0 k, (==_iff b.window w).0 e) n

stamps-put_other :
    (key other : String) (w v : ℕ) (ts : List ℕ) (bs : List Bucket)
    → (str_eq key other && w == v) ≡ false
    → stamps_of other v (put_stamps key w ts bs) ≡ stamps_of other v bs
stamps-put_other key other w v ts [] n = rw n refl
stamps-put_other key other w v ts (b ∷ bs) n = elim (Bool-cases (is_bucket key w b)) [
  | inl y ↦
      let off : is_bucket other v b ≡ false = other_bucket key other w v b y n in rw (y, off) refl
  | inr f ↦ elim (Bool-cases (is_bucket other v b)) [
    | inl y ↦ rw (f, y) refl
    | inr g ↦ rw (f, g) (stamps-put_other key other w v ts bs n)
  ]
]

-- The bucket of a key has a stamp for each accepted request that a window still sees.
abbrev pub Covers : String → ℕ → ℕ → List ℕ → List Bucket → Type 0
Covers key w now accepted buckets =
    (x : ℕ) → now < x + w * 1000000 → count_from x accepted ≤ count_from x (stamps_of key w buckets)

module _ (key : String) (w now : ℕ) (accepted : List ℕ) (bs : List Bucket)
    (c : Covers key w now accepted bs) where
  abbrev recent : List ℕ
  recent = recent_stamps key now w bs

  pub recent-Covers : (x : ℕ) → now < x + w * 1000000 → count_from x accepted ≤ count_from x recent
  recent-Covers x h = rw (count_recent x now w (stamps_of key w bs) h) (c x h)

  -- The bucket covers the request, once it is written.
  pub accepted-Covers : Covers key w now (now ∷ accepted) (put_stamps key w (recent ++ now ∷ []) bs)
  accepted-Covers x h =
      rw (stamps-put_same key w (recent ++ now ∷ []) bs, count_append x now recent)
        (ground (arith, recent-Covers x h))

  same-Covers : Covers key w now accepted (put_stamps key w (recent ++ now ∷ []) bs)
  same-Covers x h = let k = accepted-Covers x h in ground arith

  -- What a rule writes covers what was covered.
  pub written-Covers :
      (v : ℕ)
      → Covers key w now accepted (put_stamps key v (recent_stamps key now v bs ++ now ∷ []) bs)
  written-Covers v = elim (Bool-cases (v == w)) [
    | inl y ↦
        subst
          (λ u.
            Covers key w now accepted
              (put_stamps key u (recent_stamps key now u bs ++ now ∷ []) bs))
          (sym ((==_iff v w).0 y)) same-Covers
    | inr n ↦ λ x h.
        let off : (str_eq key key && v == w) ≡ false = rw ((str_eq_iff key key).1 refl) n in
        rw (stamps-put_other key key v w (recent_stamps key now v bs ++ now ∷ []) bs off) (c x h)
  ]

-- The rules keep what is covered.
pub rules-Covers :
    (key : String) (w now : ℕ) (accepted : List ℕ) (rules : List RateLimitRule) (bs : List Bucket)
    → Covers key w now accepted bs
    → Covers key w now accepted (check_rules key now bs rules).1
unfolding check_rules
rules-Covers key w now accepted [] bs c = c
rules-Covers key w now accepted (r ∷ rules) bs c =
    let stamps = recent_stamps key now r.window_seconds bs in
    elim (Bool-cases (r.window_seconds == 0 || r.max_requests == 0)) [
      | inl y ↦ rw y (rules-Covers key w now accepted rules bs c)
      | inr n ↦ elim (Bool-cases (leb r.max_requests (length stamps))) [
        | inl full ↦ rw (n, full) c
        | inr room ↦
            rw (n, room)
              (rules-Covers key w now accepted rules
                (put_stamps key r.window_seconds (stamps ++ now ∷ []) bs)
                (written-Covers key w now accepted bs c r.window_seconds))
      ]
    ]

-- So do the rules for another key.
pub others-Covers :
    (key other : String) (w now : ℕ) (accepted : List ℕ) (rules : List RateLimitRule)
    (bs : List Bucket)
    → str_eq other key ≡ false
    → Covers key w now accepted bs
    → Covers key w now accepted (check_rules other now bs rules).1
unfolding check_rules
others-Covers key other w now accepted [] bs o c = c
others-Covers key other w now accepted (r ∷ rules) bs o c =
    let stamps = recent_stamps other now r.window_seconds bs in
    elim (Bool-cases (r.window_seconds == 0 || r.max_requests == 0)) [
      | inl y ↦ rw y (others-Covers key other w now accepted rules bs o c)
      | inr n ↦ elim (Bool-cases (leb r.max_requests (length stamps))) [
        | inl full ↦ rw (n, full) c
        | inr room ↦
            let off : (str_eq other key && r.window_seconds == w) ≡ false = rw o refl in
            rw (n, room)
              (others-Covers key other w now accepted rules
                (put_stamps other r.window_seconds (stamps ++ now ∷ []) bs) o
                (λ x h.
                  rw (stamps-put_other other key r.window_seconds w (stamps ++ now ∷ []) bs off)
                    (c x h)))
      ]
    ]
