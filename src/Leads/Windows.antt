-- ===== src/Leads/Windows.antt =====
-- The rate limiter accepts no more requests in a window than its rule allows.
use coreops_platform.Base.{
  ℕ, ◌+◌, ◌*◌, ◌≤◌, ◌<◌, ◌≡◌, subst, String, true, false, ◌&&◌, ◌||◌, List, [], ◌∷◌, ◌++◌, Elem,
  inl, inr, length, leb, ◌==◌, str_eq, str_eq_iff, Bool-cases, arith, if◌then◌else◌,
}
use coreops_platform.Leads.RateLimit.{
  RateLimitRule, Bucket, put_stamps, recent_stamps, check_rules, or_unknown, check_and_increment,
}
use coreops_platform.Leads.Buckets.{
  count_from, count_length, Covers, recent-Covers, accepted-Covers, written-Covers, rules-Covers,
  others-Covers,
}

-- A request that every rule accepts is covered, and within the rule.
abbrev IsWithin : String → ℕ → ℕ → ℕ → List ℕ → List Bucket → Type 0
IsWithin key w max now accepted bs =
    Covers key w now accepted bs × ((x : ℕ) → now < x + w * 1000000 → count_from x accepted ≤ max)

-- The rule limits anything.
abbrev pub IsInForce : RateLimitRule → Type 0
IsInForce r = (r.window_seconds == 0 || r.max_requests == 0) ≡ false

first-IsWithin :
    (key : String) (now : ℕ) (accepted : List ℕ) (rules : List RateLimitRule) (r : RateLimitRule)
    (bs : List Bucket)
    → IsInForce r
    → Covers key r.window_seconds now accepted bs
    → (check_rules key now bs (r ∷ rules)).0 ≡ true
    → IsWithin key r.window_seconds r.max_requests now
        (now ∷ accepted)
        (check_rules key now bs (r ∷ rules)).1
unfolding check_rules
first-IsWithin key now accepted rules r bs n c t =
    let w = r.window_seconds in
    let stamps = recent_stamps key now w bs in
    elim (Bool-cases (leb r.max_requests (length stamps))) [
      | inl full ↦ let z : false ≡ true = rw (n, full) at t in cc
      | inr room ↦
          rw (n, room)
            (
              rules-Covers key w now (now ∷ accepted) rules
                  (put_stamps key w (stamps ++ now ∷ []) bs)
                  (accepted-Covers key w now accepted bs c),
              λ x h.
                  let few = recent-Covers key w now accepted bs c x h in
                  let all = count_length x stamps in ground arith,
            )
    ]

accepted-IsWithin :
    (key : String) (now : ℕ) (accepted : List ℕ) (rules : List RateLimitRule) (r : RateLimitRule)
    (bs : List Bucket)
    → Elem r rules
    → IsInForce r
    → Covers key r.window_seconds now accepted bs
    → (check_rules key now bs rules).0 ≡ true
    → IsWithin key r.window_seconds r.max_requests now
        (now ∷ accepted)
        (check_rules key now bs rules).1
unfolding check_rules
accepted-IsWithin key now accepted [] r bs m n c t = absurd m
accepted-IsWithin key now accepted (q ∷ rules) r bs (inl e) n c t =
    subst
      (λ y.
        (check_rules key now bs (y ∷ rules)).0 ≡ true
        → IsWithin key r.window_seconds r.max_requests now (now ∷ accepted)
            (check_rules key now bs (y ∷ rules)).1)
      e (first-IsWithin key now accepted rules r bs n c) t
accepted-IsWithin key now accepted (q ∷ rules) r bs (inr m) n c t =
    let w = r.window_seconds in
    let stamps = recent_stamps key now q.window_seconds bs in
    let written = put_stamps key q.window_seconds (stamps ++ now ∷ []) bs in
    elim (Bool-cases (q.window_seconds == 0 || q.max_requests == 0)) [
      | inl y ↦ rw y (accepted-IsWithin key now accepted rules r bs m n c (rw y at t))
      | inr f ↦ elim (Bool-cases (leb q.max_requests (length stamps))) [
        | inl full ↦ let z : false ≡ true = rw (f, full) at t in cc
        | inr room ↦
            rw (f, room)
              (accepted-IsWithin key now accepted rules r written m n
                (written-Covers key w now accepted bs c q.window_seconds) (rw (f, room) at t))
      ]
    ]

-- The requests of a limiter under rules that stay the same: the instants at which those of a key were
-- accepted, the last first, after requests of any keys at instants that do not go back.
pub data Requests (rules : List RateLimitRule) (key : String)
    : List Bucket → ℕ → List ℕ → Type 0 where
  none_yet : {now : ℕ} → Requests rules key [] now []
  request :
      {bs : List Bucket} {now : ℕ} {accepted : List ℕ} (who : String) (later : ℕ)
      → Requests rules key bs now accepted
      → now ≤ later
      → Requests rules key (check_and_increment who later bs rules).1 later (
          if str_eq (or_unknown who) key && (check_and_increment who later bs rules).0
          then later ∷ accepted
          else accepted)

module _ (rules : List RateLimitRule) (key : String) (r : RateLimitRule) (m : Elem r rules)
    (n : IsInForce r) where
  requests-IsWithin :
      (bs : List Bucket) (now : ℕ) (accepted : List ℕ)
      → Requests rules key bs now accepted
      → IsWithin key r.window_seconds r.max_requests now accepted bs
  unfolding check_and_increment
  requests-IsWithin _ now _ Requests.none_yet = (λ x h. omega arith, λ x h. omega arith)
  requests-IsWithin _ _ _ (Requests.request {bs} {now} {accepted} who later before after) =
      let (c, b) = requests-IsWithin bs now accepted before in
      let w = r.window_seconds in
      let still : Covers key w later accepted bs = λ x h. c x (omega arith) in
      let bound : (x : ℕ) → later < x + w * 1000000 → count_from x accepted ≤ r.max_requests =
        λ x h. b x (omega arith) in
      elim (Bool-cases (str_eq (or_unknown who) key)) [
        | inr other ↦
            rw other
              (others-Covers key (or_unknown who) w later accepted rules bs other still, bound)
        | inl same ↦
            let e = (str_eq_iff (or_unknown who) key).0 same in
            elim (Bool-cases (check_rules key later bs rules).0) [
              | inl t ↦
                  rw (same, e, t) (accepted-IsWithin key later accepted rules r bs m n still t)
              | inr f ↦ rw (same, e, f) (rules-Covers key w later accepted rules bs still, bound)
            ]
      ]

  -- Where the rules do not change and the requests are processed in the order of the instants that they
  -- have read, the requests of a key that were accepted since a point in the window of a rule in force
  -- are no more than the rule allows.
  pub accepted_bound :
      (bs : List Bucket) (now : ℕ) (accepted : List ℕ) (x : ℕ)
      → Requests rules key bs now accepted
      → now < x + r.window_seconds * 1000000
      → count_from x accepted ≤ r.max_requests
  accepted_bound bs now accepted x h e = (requests-IsWithin bs now accepted h).1 x e
