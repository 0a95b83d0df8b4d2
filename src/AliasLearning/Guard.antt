-- ===== src/AliasLearning/Guard.antt =====
-- app/pipeline/alias_learning.py::safe_to_learn_alias: what the write-side guard decides.
use payroll_agent.Prelude.{
  ℕ, ◌≡◌, ◌↔◌, ap, refl, sym, ◌∙◌, inl, inr, [], ◌∷◌, In, In-map, map-In, In-append_right, ==-self,
  Text, nat_eq, list_eq, true, false, Option, none, some, ◌==◌, ==→eq, arith,
}
use payroll_agent.Roster.{Employee, Roster, NameMatchResult}
use payroll_agent.Reconcile.{normalize_name, deterministic_match}
use payroll_agent.Reconcile.Unique.{resolved_id, Carries, CarriedBy, deterministic_match_iff}
use payroll_agent.AliasLearning.{
  matches_id, append_token, update_aliases, synthetic_roster, safe_to_learn_alias,
}
use payroll_agent.AliasLearning.Carriers.{
  update_aliases-id, append_token-Keeps, append_token-AddsOnly, CarriedBy-updated,
  updated-CarriedBy,
}

matches_id_iff :
    (o : Option NameMatchResult) (i : ℕ) → (matches_id o i ≡ true) ↔ (resolved_id o ≡ some i)
unfolding matches_id
matches_id_iff none i = (λ h. cc h, λ h. cc h)
matches_id_iff (some m) i = from m.matched_employee_id
  where
    from : (j : Option ℕ) → ((elim j [ none ↦ false | some k ↦ k == i ]) ≡ true) ↔ (j ≡ some i)
    from none = (λ h. cc h, λ h. cc h)
    from (some k) = (λ h. ap some (==→eq k i h), λ h. ground (arith, h))

module _ (fold : Text → Text) (token : Text) (target : ℕ) (r : Roster) where
  abbrev norm : Text
  norm = normalize_name fold token

  -- The target takes the token, and so carries its name.
  takes-CarriedBy :
      (e : Employee)
      → In e r.employees
      → e.id ≡ target
      → CarriedBy fold norm (synthetic_roster token target r) target
  unfolding synthetic_roster update_aliases
  takes-CarriedBy e m own = (
    update_aliases (append_token token) target e,
    In-map (update_aliases (append_token token) target) e r.employees m,
    rw (own, ==-self target)
        (inr (token, In-append_right token e.known_aliases (token ∷ []) (inl refl), refl)),
    update_aliases-id (append_token token) target e ∙ own,
  )

  -- The guard lets a token be learned for an id exactly when an employee of the roster has that id
  -- and every employee of the roster who carries the token's name already, as the full name or as an
  -- alias, has that id.
  pub safe_to_learn_alias_iff : (safe_to_learn_alias fold token target r ≡ true) ↔ (
      ((e : Employee) × In e r.employees × (e.id ≡ target))
      × ((e : Employee)
          → In e r.employees
          → Carries fold (normalize_name fold token) e
          → e.id ≡ target))
  unfolding safe_to_learn_alias synthetic_roster
  safe_to_learn_alias_iff =
      let found = deterministic_match fold token (synthetic_roster token target r) in
      let (a, b) = matches_id_iff found target in
      let (c, d) = deterministic_match_iff fold token (synthetic_roster token target r) target in
      (
        λ h.
            let ((e', m', k', own'), all) = c (a h) in
            let (e, m, q) = map-In (update_aliases (append_token token) target) e' r.employees m' in
            (
              (
                e,
                m,
                sym (update_aliases-id (append_token token) target e)
                    ∙ (ap (λ (x : Employee). x.id) (sym q) ∙ own'),
              ),
              λ x n k.
                  let (y, l, j, w) =
                    CarriedBy-updated fold (append_token token) target norm r x.id
                      (append_token-Keeps token) (x, n, k, refl) in
                  sym w ∙ all y l j,
            ),
        λ ((e, m, own), all). b (
            d (
              takes-CarriedBy e m own,
              λ x n k.
                  elim (updated-CarriedBy fold (append_token token) target token norm r x.id
                    (append_token-AddsOnly token) (x, n, k, refl)) [
                      | inl (y, l, j, w) ↦ sym w ∙ all y l j
                      | inr (w, same) ↦ w
                    ],
            )),
      )
