-- ===== src/Validate/Settled.antt =====
-- app/pipeline/validate.py: the test on `resolved_drops`, as membership of the pair.
use payroll_agent.Prelude.{
  ℕ, ◌≡◌, refl, sym, ◌∙◌, ap, Text, list_eq, list_beq, nat_eq, true, List, In, any-elim, ◌==◌, ◌&&◌,
  ==→eq, if◌then◌else◌, arith,
}
use mathlib.Core.Path.{subst}
use payroll_agent.Contracts.{HoursField, regular, overtime, vacation, sick, holiday, field_name}
use payroll_agent.Validate.{DropKey, field_beq, is_resolved_drop}

-- The field of a name, which makes names of fields differ.
named_field : Text → HoursField
named_field t =
    if t == field_name regular
    then regular
    else if t == field_name overtime
    then overtime
    else if t == field_name vacation
    then vacation
    else if t == field_name sick
    then sick
    else holiday

named_field-field_name : (f : HoursField) → named_field (field_name f) ≡ f
unfolding named_field field_name list_beq
named_field-field_name regular = refl
named_field-field_name overtime = refl
named_field-field_name vacation = refl
named_field-field_name sick = refl
named_field-field_name holiday = refl

field_beq-eq : (f g : HoursField) → field_beq f g ≡ true → f ≡ g
unfolding field_beq
field_beq-eq f g h =
    sym (named_field-field_name f)
    ∙ ap named_field (==→eq (field_name f) (field_name g) h)
    ∙ named_field-field_name g

same_key : (d : DropKey) (i : ℕ) (f : HoursField) → d.0 ≡ i → d.1 ≡ f → d ≡ (i, f)
same_key (j, g) i f p q = rw (p, q) refl

pub is_resolved_drop-In :
    (i : ℕ) (f : HoursField) (drops : List DropKey)
    → is_resolved_drop i f drops ≡ true
    → In (i, f) drops
unfolding is_resolved_drop
is_resolved_drop-In i f drops h =
    let (d, m, t) = any-elim (λ (d : DropKey). d.0 == i && field_beq d.1 f) drops h in
    let q : (d.0 == i) ≡ true = ground (arith, t) in
    let s : field_beq d.1 f ≡ true = ground (arith, t) in
    subst (λ (k : DropKey). In k drops) (same_key d i f (==→eq d.0 i q) (field_beq-eq d.1 f s)) m
