-- ===== src/Crm/PolicyLaws.antt =====
-- A validated policy of backend/app/modules/process_overlay/policy_schema.py validates to itself.
use coreops_platform.Base.{
  ℕ, suc, ◌≡◌, refl, sym, ap, subst, String, Bool, true, false, not, ◌&&◌, List, [], ◌∷◌, map,
  filter, length, ltb, ◌==◌, ==_iff, ==_refl, is_empty, inl, inr, Bool-cases, ok, >>=-eq-ok,
  raise_if, raise_if-eq-ok, ok_inj,
}
use coreops_platform.Crm.Policy.{
  invalid, Conditions, Transition, PolicySnapshot, has_text, has_repeats, all_have_text, is_code,
  non_empty_strings, unique_string_list, validate_conditions, validate_transition,
  validate_transitions, validate_graph, model_validate,
}

length-map : {A B : Type 0} (f : A → B) (xs : List A) → length (map f xs) ≡ length xs
length-map f [] = refl
length-map f (x ∷ xs) = ap suc (length-map f xs)

of_not : (b : Bool) → not b ≡ false → b ≡ true
of_not true h = refl
of_not false h = cc

module _ (strip : String → String) (idem : (s : String) → strip (strip s) ≡ strip s)
    (text_length : String → ℕ) where
  abbrev clean : List String → List String
  clean xs = map strip (filter (λ x. has_text x && has_text (strip x)) xs)

  clean-clean : (xs : List String) → clean (clean xs) ≡ clean xs
  clean-clean [] = refl
  clean-clean (x ∷ xs) =
      let ih = clean-clean xs in
      elim (Bool-cases (has_text x)) [
        | inr n ↦ rw n ih
        | inl y ↦ elim (Bool-cases (has_text (strip x))) [
          | inr n ↦ rw (y, n) ih
          | inl z ↦ rw (y, z, z, idem x, z, idem x, ih) refl
        ]
      ]

  strip_all : (xs : List String) → map strip (map strip xs) ≡ map strip xs
  strip_all [] = refl
  strip_all (x ∷ xs) = rw (idem x, strip_all xs) refl

  non_empty_strings_again :
      (max : ℕ) (xs ys : List String)
      → non_empty_strings strip text_length max xs ≡ ok ys
      → non_empty_strings strip text_length max ys ≡ ok ys
  unfolding non_empty_strings
  non_empty_strings_again max xs ys h =
      let (u1, e1, h1) = >>=-eq-ok (raise_if (ltb max (length xs)) invalid) _ h in
      let (u2, e2, h2) = >>=-eq-ok (raise_if (not (length (clean xs) == length xs)) invalid) _ h1 in
      let q : clean xs ≡ ys = ok_inj h2 in
      let n : ltb max (length xs) ≡ false = raise_if-eq-ok _ _ e1 in
      let len : length (clean xs) ≡ length xs = (==_iff _ _).0 (of_not _ (raise_if-eq-ok _ _ e2)) in
      subst (λ z. non_empty_strings strip text_length max z ≡ ok z) q
        (rw (len, n, clean-clean xs, len, ==_refl (length xs)) refl)

  unique_string_list_again :
      (max : ℕ) (xs ys : List String)
      → unique_string_list strip text_length max xs ≡ ok ys
      → unique_string_list strip text_length max ys ≡ ok ys
  unfolding unique_string_list
  unique_string_list_again max xs ys h =
      let (u1, e1, h1) = >>=-eq-ok (raise_if (ltb max (length xs)) invalid) _ h in
      let (u2, e2, h2) =
        >>=-eq-ok (raise_if (not (all_have_text strip text_length (map strip xs))) invalid) _ h1 in
      let (u3, e3, h3) = >>=-eq-ok (raise_if (has_repeats (map strip xs)) invalid) _ h2 in
      let n1 = raise_if-eq-ok _ _ e1 in
      let n2 = raise_if-eq-ok _ _ e2 in
      let n3 = raise_if-eq-ok _ _ e3 in
      subst (λ z. unique_string_list strip text_length max z ≡ ok z) (ok_inj h3)
        (rw (length-map strip xs, strip_all xs, n1, n2, n3) refl)

  validate_conditions_again :
      (x y : Conditions)
      → validate_conditions strip text_length x ≡ ok y
      → validate_conditions strip text_length y ≡ ok y
  unfolding validate_conditions
  validate_conditions_again x y h =
      let (a, e1, h1) = >>=-eq-ok (non_empty_strings strip text_length 50 x.required_fields) _ h in
      let (b, e2, h2) = >>=-eq-ok (non_empty_strings strip text_length 20 x.required_roles) _ h1 in
      let (c, e3, h3) =
        >>=-eq-ok (non_empty_strings strip text_length 50 x.required_task_codes) _ h2 in
      let (d, e4, h4) =
        >>=-eq-ok (non_empty_strings strip text_length 50 x.required_document_types) _ h3 in
      let z : Conditions = record {
        required_fields = a;
        required_roles = b;
        requires_approval = x.requires_approval;
        required_task_codes = c;
        required_document_types = d;
      } in
      subst (λ w. validate_conditions strip text_length w ≡ ok w) (ok_inj {a = z} h4)
        (rw
          (
            non_empty_strings_again 50 x.required_fields a e1,
            non_empty_strings_again 20 x.required_roles b e2,
            non_empty_strings_again 50 x.required_task_codes c e3,
            non_empty_strings_again 50 x.required_document_types d e4,
          )
          refl)

  built_transition :
      (t : Transition)
      → not (is_code strip text_length t.from_stage_code) ≡ false
      → not (is_code strip text_length t.to_stage_code) ≡ false
      → validate_conditions strip text_length t.conditions ≡ ok t.conditions
      → validate_transition strip text_length t ≡ ok t
  unfolding validate_transition
  built_transition t n1 n2 c = rw (n1, n2, c) refl

  validate_transition_again :
      (x y : Transition)
      → validate_transition strip text_length x ≡ ok y
      → validate_transition strip text_length y ≡ ok y
  unfolding validate_transition
  validate_transition_again x y h =
      let (u1, e1, h1) =
        >>=-eq-ok (raise_if (not (is_code strip text_length x.from_stage_code)) invalid) _ h in
      let (u2, e2, h2) =
        >>=-eq-ok (raise_if (not (is_code strip text_length x.to_stage_code)) invalid) _ h1 in
      let (c, e3, h3) = >>=-eq-ok (validate_conditions strip text_length x.conditions) _ h2 in
      let n1 = raise_if-eq-ok _ _ e1 in
      let n2 = raise_if-eq-ok _ _ e2 in
      subst (λ w. validate_transition strip text_length w ≡ ok w)
        (ok_inj {a = record x { conditions = c }} h3)
        (built_transition (record x { conditions = c }) n1 n2
          (validate_conditions_again x.conditions c e3))

  validate_transitions_again :
      (xs ys : List Transition)
      → validate_transitions strip text_length xs ≡ ok ys
      → validate_transitions strip text_length ys ≡ ok ys
  unfolding validate_transitions
  validate_transitions_again [] ys h =
      subst (λ w. validate_transitions strip text_length w ≡ ok w) (ok_inj {a = []} h) refl
  validate_transitions_again (x ∷ xs) ys h =
      let (a, e1, h1) = >>=-eq-ok (validate_transition strip text_length x) _ h in
      let (b, e2, h2) = >>=-eq-ok (validate_transitions strip text_length xs) _ h1 in
      subst (λ w. validate_transitions strip text_length w ≡ ok w) (ok_inj {a = a ∷ b} h2)
        (rw (validate_transition_again x a e1, validate_transitions_again xs b e2) refl)

  built_policy :
      (p : PolicySnapshot)
      → not (p.schema_version == 1) ≡ false
      → not (is_code strip text_length p.process_template_code) ≡ false
      → not (is_code strip text_length p.pipeline_code) ≡ false
      → is_empty p.stage_codes ≡ false
      → unique_string_list strip text_length 50 p.stage_codes ≡ ok p.stage_codes
      → ltb 100 (length p.transitions) ≡ false
      → validate_transitions strip text_length p.transitions ≡ ok p.transitions
      → unique_string_list strip text_length 20 p.module_requirements ≡ ok p.module_requirements
      → unique_string_list strip text_length 50 p.terminal_stage_codes ≡ ok p.terminal_stage_codes
      → validate_graph p ≡ ok tt
      → model_validate strip text_length p ≡ ok p
  unfolding model_validate
  built_policy p n1 n2 n3 n4 u n5 t v w g = rw (n1, n2, n3, n4, u, n5, t, v, w, g) refl

  transitions_length :
      (xs ys : List Transition)
      → validate_transitions strip text_length xs ≡ ok ys
      → length ys ≡ length xs
  unfolding validate_transitions
  transitions_length [] ys h = subst (λ w. length w ≡ 0) (ok_inj {a = []} h) refl
  transitions_length (x ∷ xs) ys h =
      let (a, e1, h1) = >>=-eq-ok (validate_transition strip text_length x) _ h in
      let (b, e2, h2) = >>=-eq-ok (validate_transitions strip text_length xs) _ h1 in
      subst (λ w. length w ≡ suc (length xs)) (ok_inj {a = a ∷ b} h2)
        (ap suc (transitions_length xs b e2))

  unique_string_list_non_empty :
      (max : ℕ) (xs ys : List String)
      → unique_string_list strip text_length max xs ≡ ok ys
      → is_empty xs ≡ false
      → is_empty ys ≡ false
  unfolding unique_string_list
  unique_string_list_non_empty max [] ys h n = cc
  unique_string_list_non_empty max (x ∷ xs) ys h n =
      let (u1, e1, h1) = >>=-eq-ok (raise_if (ltb max (length (x ∷ xs))) invalid) _ h in
      let (u2, e2, h2) =
        >>=-eq-ok (raise_if (not (all_have_text strip text_length (map strip (x ∷ xs)))) invalid) _
          h1 in
      let (u3, e3, h3) = >>=-eq-ok (raise_if (has_repeats (map strip (x ∷ xs))) invalid) _ h2 in
      subst (λ w. is_empty w ≡ false) (ok_inj {a = map strip (x ∷ xs)} h3) refl

  pub model_validate_again :
      (p q : PolicySnapshot)
      → model_validate strip text_length p ≡ ok q
      → model_validate strip text_length q ≡ ok q
  unfolding model_validate
  model_validate_again p q h =
      let (u1, e1, h1) = >>=-eq-ok (raise_if (not (p.schema_version == 1)) invalid) _ h in
      let (u2, e2, h2) =
        >>=-eq-ok (raise_if (not (is_code strip text_length p.process_template_code)) invalid) _
          h1 in
      let (u3, e3, h3) =
        >>=-eq-ok (raise_if (not (is_code strip text_length p.pipeline_code)) invalid) _ h2 in
      let (u4, e4, h4) = >>=-eq-ok (raise_if (is_empty p.stage_codes) invalid) _ h3 in
      let (codes, e5, h5) =
        >>=-eq-ok (unique_string_list strip text_length 50 p.stage_codes) _ h4 in
      let (u6, e6, h6) = >>=-eq-ok (raise_if (ltb 100 (length p.transitions)) invalid) _ h5 in
      let (edges, e7, h7) = >>=-eq-ok (validate_transitions strip text_length p.transitions) _ h6 in
      let (modules, e8, h8) =
        >>=-eq-ok (unique_string_list strip text_length 20 p.module_requirements) _ h7 in
      let (ends, e9, h9) =
        >>=-eq-ok (unique_string_list strip text_length 50 p.terminal_stage_codes) _ h8 in
      let r : PolicySnapshot = record {
        schema_version = p.schema_version;
        process_template_code = p.process_template_code;
        pipeline_code = p.pipeline_code;
        stage_codes = codes;
        transitions = edges;
        module_requirements = modules;
        terminal_stage_codes = ends;
      } in
      let (u10, e10, h10) = >>=-eq-ok (validate_graph r) _ h9 in
      subst (λ w. model_validate strip text_length w ≡ ok w) (ok_inj {a = r} h10)
        (built_policy r (raise_if-eq-ok _ _ e1) (raise_if-eq-ok _ _ e2) (raise_if-eq-ok _ _ e3)
          (unique_string_list_non_empty 50 p.stage_codes codes e5 (raise_if-eq-ok _ _ e4))
          (unique_string_list_again 50 p.stage_codes codes e5)
          (subst (λ n. ltb 100 n ≡ false) (sym (transitions_length p.transitions edges e7))
            (raise_if-eq-ok _ _ e6))
          (validate_transitions_again p.transitions edges e7)
          (unique_string_list_again 20 p.module_requirements modules e8)
          (unique_string_list_again 50 p.terminal_stage_codes ends e9) e10)
