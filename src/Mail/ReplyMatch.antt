-- ===== src/Mail/ReplyMatch.antt =====
-- apps/api/src/modules/mail/mail-inbound-correlation.service.ts: the thread that the headers
-- of a reply name (`matchByReplyHeaders`).
use crm_nusrv.Base.{
  ℕ, Bool, false, ◌&&◌, Option, none, some, String, List, [], ◌∷◌, Table, filter, any, str_eq, ◌==◌,
  lower, if◌then◌else◌,
}
use crm_nusrv.Store.{Db}
use crm_nusrv.Store.Rows.{EmailMessage}
use crm_nusrv.Mail.Sender.{distinct}

pub data HeaderMatch : Type 0 where
  thread : ℕ → HeaderMatch
  ambiguous none_matches : HeaderMatch

abbrev pub is_listed : List String → String → Bool
is_listed ids id = any (str_eq id) ids

-- `mailConfigurationId` and `externalMessageId: { in: ids }`: the column compares without regard to
-- case.
abbrev pub is_candidate : ℕ → List String → EmailMessage → Bool
is_candidate box_id ids m =
    elim m.mail_configuration_id [ none ↦ false | some k ↦ k == box_id ]
    && elim m.external_message_id [
      | none ↦ false
      | some id ↦ any (λ token. str_eq (lower id) (lower token)) ids
    ]

-- `idSet.has(row.externalMessageId)`
abbrev pub is_exact : List String → EmailMessage → Bool
is_exact ids m = elim m.external_message_id [ none ↦ false | some id ↦ is_listed ids id ]

abbrev pub rows {ℓ} : {A : Type ℓ} → Table A → List A
rows [] = []
rows ((_, a) ∷ t) = a ∷ rows t

abbrev pub thread_ids : List EmailMessage → List ℕ
thread_ids [] = []
thread_ids (m ∷ l) = m.thread_id ∷ thread_ids l

-- `matchThreadsByExternalIds`
unfoldable pub match_threads_by_external_ids : ℕ → List String → Db → List ℕ
unfolding distinct
match_threads_by_external_ids box_id ids db =
    distinct
      (thread_ids (filter (is_exact ids) (filter (is_candidate box_id ids) (rows db.messages))))

abbrev pub one_thread : List ℕ → List ℕ → HeaderMatch
one_thread [] [] = none_matches
one_thread (a ∷ []) [] = thread a
one_thread [] (b ∷ []) = thread b
one_thread (a ∷ []) (b ∷ []) = if a == b then thread a else ambiguous
one_thread _ _ = ambiguous

abbrev pub token_list : Option String → List String
token_list none = []
token_list (some token) = token ∷ []

-- `matchByReplyHeaders`; no query is made for an empty list, which would match nothing.
unfoldable pub match_by_reply_headers : ℕ → Option String → List String → Db → HeaderMatch
unfolding match_threads_by_external_ids
match_by_reply_headers box_id in_reply_to references db =
    one_thread (match_threads_by_external_ids box_id (token_list in_reply_to) db)
      (match_threads_by_external_ids box_id references db)
