-- ===== src/Mail/Configuration/Usable.antt =====
-- When a mailbox is used.
use crm_nusrv.Base.{
  ℕ, ◌≡◌, ◌↔◌, ◌≤◌, ◌⊎◌, refl, true, Option, none, some, arith, inl, inr, String, find_first, Table,
  Option-cases, Bool-cases, str_eq_iff,
}
use crm_nusrv.Store.Enums.{IntegrationEnvironment}
use crm_nusrv.Store.Rows.{MailConfiguration}
use crm_nusrv.Mail.Configuration.{
  Mailbox, usable, Setting, env_of, is_environment_allowed, reached, apply_outbound_guards,
  is_override, is_global, resolve_for_outbound, resolve_pinned,
}

-- What the guards ask of a mailbox.
pub record MaySend (s : Setting) (c : MailConfiguration) : Type 0 where
  pub enabled : c.enabled ≡ true
  pub right_environment :
      (c.environment ≡ IntegrationEnvironment.production) ↔ (env_of s.node_env ≡ "production")
  pub outbound : c.outbound_send_enabled ≡ true
  pub cut_over :
      s.check_cutover ≡ true → (t : ℕ) × (c.outbound_send_cutover_at ≡ some t) × (t ≤ s.now)

reached_lem :
    (cutover : Option ℕ) (now : ℕ)
    → reached cutover now ≡ true
    → (t : ℕ) × (cutover ≡ some t) × (t ≤ now)
unfolding reached
reached_lem none now h = cc
reached_lem (some t) now h = (t, refl, ground arith)

reached_of_le : (t now : ℕ) → t ≤ now → reached (some t) now ≡ true
unfolding reached
reached_of_le t now h = ground arith

allowed_iff :
    (c : IntegrationEnvironment) (e : String)
    → (is_environment_allowed c e ≡ true)
      ↔ ((c ≡ IntegrationEnvironment.production) ↔ (e ≡ "production"))
unfolding is_environment_allowed
allowed_iff IntegrationEnvironment.production e = ground (arith, str_eq_iff e "production")
allowed_iff IntegrationEnvironment.sandbox e = ground (arith, str_eq_iff e "production")

-- What the tests of the guards found.
guards_tests :
    (s : Setting) (box found : Mailbox)
    → apply_outbound_guards s box ≡ usable found
    → (found ≡ box)
      × (is_environment_allowed box.1.environment (env_of s.node_env) ≡ true)
      × (box.1.outbound_send_enabled ≡ true)
      × (s.check_cutover ≡ true → reached box.1.outbound_send_cutover_at s.now ≡ true)
unfolding apply_outbound_guards
guards_tests s box found e = ground arith

guards-MaySend :
    (s : Setting) (box found : Mailbox)
    → box.1.enabled ≡ true
    → apply_outbound_guards s box ≡ usable found
    → (found ≡ box) × MaySend s box.1
guards-MaySend s box found on e =
    let (same, allowed, sends, cut) = guards_tests s box found e in
    (
      same,
      record {
        enabled = on;
        right_environment = (allowed_iff _ _).0 allowed;
        outbound = sends;
        cut_over = λ c. reached_lem _ _ (cut c);
      },
    )

MaySend-guards :
    (s : Setting) (box : Mailbox) → MaySend s box.1 → apply_outbound_guards s box ≡ usable box
unfolding apply_outbound_guards
MaySend-guards s box m = elim (Bool-cases s.check_cutover) [
  | inl c ↦
      let (t, at, le) = m.cut_over c in
      let cut : reached box.1.outbound_send_cutover_at s.now ≡ true =
        rw at (reached_of_le t s.now le) in
      rw (allowed, m.outbound, c, cut) refl
  | inr c ↦ rw (allowed, m.outbound, c) refl
]
  where
    allowed : is_environment_allowed box.1.environment (env_of s.node_env) ≡ true
    allowed = (allowed_iff box.1.environment (env_of s.node_env)).1 m.right_environment

-- A pinned mailbox is used exactly when it is enabled, stands for the environment of the process,
-- and sends since its cutover; the mailbox used is the pinned one.
pub resolve_pinned_iff :
    (s : Setting) (box found : Mailbox)
    → (resolve_pinned s (some box) ≡ usable found) ↔ ((found ≡ box) × MaySend s box.1)
unfolding resolve_pinned
resolve_pinned_iff s box found = (to, from)
  where
    to : resolve_pinned s (some box) ≡ usable found → (found ≡ box) × MaySend s box.1
    to e = guards-MaySend s box found (ground arith) (ground arith)

    from : (found ≡ box) × MaySend s box.1 → resolve_pinned s (some box) ≡ usable found
    from (same, m) = ground (arith, MaySend-guards s box m, m.enabled)

-- The mailbox that a new thread is pinned to: the billing entity's own if it has one, whether or
-- not that one may send; the global one only if there is no own.
pub resolve_for_outbound_choice :
    (s : Setting) (billing_entity_id : ℕ) (configs : Table MailConfiguration) (found : Mailbox)
    → resolve_for_outbound s billing_entity_id configs ≡ usable found
    → MaySend s found.1
      × ((find_first (is_override billing_entity_id) configs ≡ some found)
          ⊎ ((find_first (is_override billing_entity_id) configs ≡ none)
              × (find_first is_global configs ≡ some found)))
unfolding resolve_for_outbound
resolve_for_outbound_choice s billing_entity_id configs found e =
    elim (Option-cases (find_first (is_override billing_entity_id) configs)) [
      | inl absent ↦ elim (Option-cases (find_first is_global configs)) [
        | inl nothing ↦ ground arith
        | inr (box, global) ↦
            let (same, m) = guards-MaySend s box found (ground arith) (ground arith) in
            (rw same m, inr (absent, rw (global, same) refl))
      ]
      | inr (box, own) ↦
          let (same, m) = guards-MaySend s box found (ground arith) (ground arith) in
          (rw same m, inl (rw (own, same) refl))
    ]
