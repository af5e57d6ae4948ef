-- ===== src/Mail/Inbound/Safety/Storing.antt =====
-- A message that was handled is stored.
use mathlib.Core.Path.{subst}
use crm_nusrv.Base.{
  ℕ, ◌≡◌, ◌⊎◌, refl, sym, ap, ◌≢◌, ◌∙◌, inl, inr, Bool, true, none, some, String, [], ◌∷◌, Table,
  In, find, find_first, create, is_some, str_eq_iff, arith, Bool-cases, Option-cases,
}
use crm_nusrv.Base.Results.{Result, ok, throw}
use crm_nusrv.Store.{Db}
use crm_nusrv.Store.Rows.{EmailMessage}
use text.Mathlib.TextLemmas.{append_cancel_left}
use crm_nusrv.Mail.ImapIdentity.{ImapIdentityTuple, compute_imap_identity_key}
use crm_nusrv.Mail.ImapIdentity.Injective.{encoding_injective}
use crm_nusrv.Mail.ReplyMatch.{rows}
use crm_nusrv.Mail.ThreadUse.{CorrelationOutcome}
use crm_nusrv.Mail.Correlation.{correlate}
use crm_nusrv.Mail.Correlation.Justified.{answer-IsJustified}
use crm_nusrv.Mail.Inbound.{
  FetchedMailboxMessage, Source, Draw, Ingested, duplicate, failed, identity_of, has_identity,
  params_of, new_message, stored, commit, ingest_one_message,
}
use crm_nusrv.Mail.Inbound.System.{IsRowOf, Stored, IsKeyed}

In-create :
    (a : EmailMessage) (k : ℕ) (x : EmailMessage) (t : Table EmailMessage)
    → In x (rows t)
    → In x (rows (create k a t))
In-create a k x [] m = absurd m
In-create a k x ((_, b) ∷ t) (inl e) = inl e
In-create a k x ((_, b) ∷ t) (inr m) = inr (In-create a k x t m)

In-created : (a : EmailMessage) (k : ℕ) (t : Table EmailMessage) → In a (rows (create k a t))
In-created a k [] = inl refl
In-created a k ((_, b) ∷ t) = inr (In-created a k t)

In-old_or_new :
    (a : EmailMessage) (k : ℕ) (x : EmailMessage) (t : Table EmailMessage)
    → In x (rows (create k a t))
    → In x (rows t) ⊎ (x ≡ a)
In-old_or_new a k x [] (inl e) = inr e
In-old_or_new a k x [] (inr m) = absurd m
In-old_or_new a k x ((_, b) ∷ t) (inl e) = inl (inl e)
In-old_or_new a k x ((_, b) ∷ t) (inr m) = elim (In-old_or_new a k x t m) [
  | inl i ↦ inl (inr i)
  | inr e ↦ inr e
]

find_first-In :
    (p : EmailMessage → Bool) (t : Table EmailMessage)
    → is_some (find_first p t) ≡ true
    → (x : EmailMessage) × In x (rows t) × (p x ≡ true)
find_first-In p [] h = absurd (cc)
find_first-In p ((k, a) ∷ t) h = elim (Bool-cases (p a)) [
  | inl here ↦ (a, inl refl, here)
  | inr later ↦ let (x, i, test) = find_first-In p t (rw later at h) in (x, inr i, test)
]

module _ (sha256_hex : String → String) (id_text : ℕ → String)
    (no_collision : (a b : String) → sha256_hex a ≡ sha256_hex b → a ≡ b)
    (texts : (a b : ℕ) → id_text a ≡ id_text b → a ≡ b) where
  -- Two messages have two keys.
  key_injective :
      (s t : Source) (a b : ℕ)
      → compute_imap_identity_key sha256_hex (identity_of id_text s a)
        ≡ compute_imap_identity_key sha256_hex (identity_of id_text t b)
      → (s ≡ t) × (a ≡ b)
  unfolding compute_imap_identity_key
  key_injective s t a b h =
      let e =
        encoding_injective (identity_of id_text s a) (identity_of id_text t b)
          (no_collision _ _ (append_cancel_left "v1:" _ _ h)) in
      (
        λ i. record {
          box_id = texts _ _ (ap (λ (x : ImapIdentityTuple). x.mail_configuration_id) e) i;
          folder = (e i).canonical_folder;
          uid_validity = (e i).uid_validity;
        },
        λ i. (e i).uid,
      )

  module _ (source : Source) (message : FetchedMailboxMessage) (draw : Draw) (db : Db)
      (unused : find draw.thread_id db.threads ≡ none)
      (keyed : (row : EmailMessage)
        → In row (rows db.messages)
        → IsKeyed sha256_hex id_text source row) where
    abbrev key : String
    key = compute_imap_identity_key sha256_hex (identity_of id_text source message.uid)

    has_identity-key :
        (row : EmailMessage) (k : String)
        → has_identity key row ≡ true
        → row.imap_identity_key ≡ some k
        → k ≡ key
    has_identity-key row k h named = (str_eq_iff k key).0 (ground (arith, named))

    has_identity-named :
        (row : EmailMessage)
        → has_identity key row ≡ true
        → (k : String) × (row.imap_identity_key ≡ some k)
    has_identity-named row h = elim (Option-cases row.imap_identity_key) [
      | inl none_there ↦ absurd (ground (arith, none_there))
      | inr named ↦ named
    ]

    taken-Stored :
        is_some (find_first (has_identity key) db.messages) ≡ true → Stored source message.uid db
    taken-Stored h =
        let (row, there, test) = find_first-In (has_identity key) db.messages h in
        let (k, named) = has_identity-named row test in
        let (from, uid, e, holds) = keyed row there k named in
        let (same_source, same_uid) =
          key_injective from source uid message.uid (sym e ∙ has_identity-key row k test named) in
        (
          row,
          there,
          subst (λ (t : Source). IsRowOf t message.uid row) same_source
              (subst (λ (u : ℕ). IsRowOf from u row) same_uid holds),
        )

    -- What the storing of the message leaves.
    pub record IsHandled (after : Db) (outcome : Ingested) : Type 0 where
      pub held : outcome ≢ failed → Stored source message.uid after
      pub kept : (s : Source) (uid : ℕ) → Stored s uid db → Stored s uid after
      pub configs : after.mail_configurations ≡ db.mail_configurations
      pub keyed_after :
          (row : EmailMessage)
          → In row (rows after.messages)
          → IsKeyed sha256_hex id_text source row

    unchanged :
        (outcome : Ingested)
        → (outcome ≢ failed → Stored source message.uid db)
        → IsHandled db outcome
    unchanged outcome held = record {
      held = held;
      kept = λ s uid h. h;
      configs = refl;
      keyed_after = keyed;
    }

    created-IsHandled :
        (occurred_at : ℕ) (correlated : Db) (outcome : CorrelationOutcome) (result : Ingested)
        → correlated.messages ≡ db.messages
        → correlated.mail_configurations ≡ db.mail_configurations
        → IsHandled
            (stored draw (new_message key source message occurred_at outcome) correlated)
            result
    created-IsHandled occurred_at correlated outcome result same configs =
        let m = new_message key source message occurred_at outcome in
        record {
          held = λ _. (
            m,
            In-created m draw.message_id correlated.messages,
            record { mailbox = refl; folder = refl; uid_validity = refl; number = refl },
          );
          kept = λ s uid (row, there, holds).
              (row, In-create m draw.message_id row correlated.messages (rw same there), holds);
          configs = configs;
          keyed_after = λ row there.
              old_or_new row (In-old_or_new m draw.message_id row correlated.messages there);
        }
      where
        own :
            (row : EmailMessage)
            → row ≡ new_message key source message occurred_at outcome
            → IsKeyed sha256_hex id_text source row
        own row e k named =
            let told : some key ≡ some k =
              sym (ap (λ (x : EmailMessage). x.imap_identity_key) e) ∙ named in
            (
              source,
              message.uid,
              cc,
              rw e (record { mailbox = refl; folder = refl; uid_validity = refl; number = refl }),
            )

        old_or_new :
            (row : EmailMessage)
            → In row (rows correlated.messages)
              ⊎ (row ≡ new_message key source message occurred_at outcome)
            → IsKeyed sha256_hex id_text source row
        old_or_new row (inl i) = keyed row (rw same at i)
        old_or_new row (inr e) = own row e

    committed :
        (occurred_at : ℕ) (r : Result (Db × CorrelationOutcome))
        → correlate id_text (params_of source message occurred_at) draw.thread_id db ≡ r
        → IsHandled
            (commit key source message occurred_at draw db r).0
            (commit key source message occurred_at draw db r).1
    committed occurred_at (throw x) e = unchanged failed (λ h. absurd (h refl))
    committed occurred_at (ok (correlated, outcome)) e =
        let rest =
          (answer-IsJustified id_text (params_of source message occurred_at) draw.thread_id db
            unused e).placed.rest in
        elim (Bool-cases (is_some (find_first (has_identity key) db.messages))) [
          | inl taken ↦ rw taken (unchanged duplicate (λ _. taken-Stored taken))
          | inr free ↦ rw free (
              created-IsHandled occurred_at correlated outcome _ (ap (λ (d : Db). d.messages) rest)
                (ap (λ (d : Db). d.mail_configurations) rest))
        ]

    -- Storing a message stores it, unless it fails; either way nothing stored is lost, and the cursors
    -- stay where they are.
    pub ingest-IsHandled :
        IsHandled
          (ingest_one_message sha256_hex id_text source message draw db).0
          (ingest_one_message sha256_hex id_text source message draw db).1
    unfolding ingest_one_message
    ingest-IsHandled = committed _ _ refl
