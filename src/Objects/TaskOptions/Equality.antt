-- ===== src/Objects/TaskOptions/Equality.antt =====
-- packages/rust/armonik/src/objects/task_options.rs: what `PartialEq for TaskOptions` compares.
use armoni_k_api.Common.{
  ℤ, String, ◌=s=◌, refl, subst, pos, negsuc, ◌≡◌, ◌↔◌, Bool, true, ◌&&◌, arith, eq_iff, ==_iff,
}
use armoni_k_api.Objects.TaskOptions.{TaskOptions, int_eq, options_eq}

pub int_eq_iff : (a b : ℤ) → (int_eq a b ≡ true) ↔ (a ≡ b)
unfolding int_eq
int_eq_iff (pos a) (pos b) = ground (arith, ==_iff a b)
int_eq_iff (pos a) (negsuc b) = (λ h. cc, λ h. cc)
int_eq_iff (negsuc a) (pos b) = (λ h. cc, λ h. cc)
int_eq_iff (negsuc a) (negsuc b) = ground (arith, ==_iff a b)

and_iff : (a b : Bool) → ((a && b) ≡ true) ↔ ((a ≡ true) × (b ≡ true))
and_iff a b = ground arith

options_eq_sound :
    (a b : TaskOptions) → options_eq a b ≡ true → record a { options = b.options } ≡ b
unfolding options_eq
options_eq_sound a b h9 =
    let (h8, e9) = (and_iff _ _).0 h9 in
    let (h7, e8) = (and_iff _ _).0 h8 in
    let (h6, e7) = (and_iff _ _).0 h7 in
    let (h5, e6) = (and_iff _ _).0 h6 in
    let (h4, e5) = (and_iff _ _).0 h5 in
    let (h3, e4) = (and_iff _ _).0 h4 in
    let (h2, e3) = (and_iff _ _).0 h3 in
    let (h1, e2) = (and_iff _ _).0 h2 in
    let (e0, e1) = (and_iff _ _).0 h1 in
    let p0 = (int_eq_iff a.max_duration.seconds b.max_duration.seconds).0 e0 in
    let p1 = (int_eq_iff a.max_duration.nanos b.max_duration.nanos).0 e1 in
    let p2 = (int_eq_iff a.max_retries b.max_retries).0 e2 in
    let p3 = (int_eq_iff a.priority b.priority).0 e3 in
    let p4 = (eq_iff a.partition_id b.partition_id).0 e4 in
    let p5 = (eq_iff a.application_name b.application_name).0 e5 in
    let p6 = (eq_iff a.application_version b.application_version).0 e6 in
    let p7 = (eq_iff a.application_namespace b.application_namespace).0 e7 in
    let p8 = (eq_iff a.application_service b.application_service).0 e8 in
    let p9 = (eq_iff a.engine_type b.engine_type).0 e9 in
    λ i. record {
      options = b.options;
      max_duration = record { seconds = p0 i; nanos = p1 i };
      max_retries = p2 i;
      priority = p3 i;
      partition_id = p4 i;
      application_name = p5 i;
      application_version = p6 i;
      application_namespace = p7 i;
      application_service = p8 i;
      engine_type = p9 i;
    }

int_eq_refl : (a : ℤ) → int_eq a a ≡ true
int_eq_refl a = (int_eq_iff a a).1 refl

text_eq_refl : (a : String) → a =s= a ≡ true
text_eq_refl a = (eq_iff a a).1 refl

options_eq_refl : (t : TaskOptions) → options_eq t t ≡ true
unfolding options_eq
options_eq_refl t = rw (
  int_eq_refl t.max_duration.seconds,
  int_eq_refl t.max_duration.nanos,
  int_eq_refl t.max_retries,
  int_eq_refl t.priority,
  text_eq_refl t.partition_id,
  text_eq_refl t.application_name,
  text_eq_refl t.application_version,
  text_eq_refl t.application_namespace,
  text_eq_refl t.application_service,
  text_eq_refl t.engine_type,
)

-- The generic options of either side can be replaced without changing the result.
options_eq_complete :
    (a b : TaskOptions) → record a { options = b.options } ≡ b → options_eq a b ≡ true
unfolding options_eq
options_eq_complete a b h = subst (λ t. options_eq a t ≡ true) h (options_eq_refl a)

-- Two values compare equal exactly if they differ in nothing but their generic options, which the
-- comparison leaves out.
pub options_eq_iff :
    (a b : TaskOptions) → (options_eq a b ≡ true) ↔ (record a { options = b.options } ≡ b)
options_eq_iff a b = (options_eq_sound a b, options_eq_complete a b)
