-- ===== src/Failure/Laws.antt =====
-- index_failure.go: what is resolved for a failed job is a diagnostic of the table.
use acemcp_relay.Prelude.{
  ◌≡◌, refl, subst, ap, ◌∙◌, Bool, true, false, List, [], ◌∷◌, Option, none, some, text_eq,
  text_beq, Text, bytes, ◌==◌, arith, lookup, All, Bool-cases, inl, inr,
}
use acemcp_relay.Strings.{trim_space}
use acemcp_relay.Failure.Rules.{Rule, disconnected_rule, timeout_rule, later_rules, index_failed}
use acemcp_relay.Failure.{
  IndexFailureDiagnostic, diagnostics_by_code, Report, nothing, invalid, provided, check_against,
  validate_trimmed, validate_reported, persisted_diagnostic, first_match, code_of, contains_any,
  or_zero, classify_index_failure, resolve_report, resolve_reported,
}

-- A diagnostic that is read back as itself from the columns that it is stored in.
abbrev pub IsPersistent : IndexFailureDiagnostic → Type 0
IsPersistent d = persisted_diagnostic d.code d.origin d.recovery ≡ some d

table-IsPersistent : All (λ (_, d). IsPersistent d) diagnostics_by_code
unfolding diagnostics_by_code bytes persisted_diagnostic validate_reported validate_trimmed
    check_against trim_space lookup text_beq
table-IsPersistent = (
  refl,
  (
    refl,
    (refl, (refl, (refl, (refl, (refl, (refl, (refl, (refl, (refl, (refl, (refl, tt))))))))))),
  ),
)

lookup-IsPersistent :
    (table : List (Text × IndexFailureDiagnostic)) (code : Text) (d : IndexFailureDiagnostic)
    → All (λ (_, e). IsPersistent e) table
    → lookup code table ≡ some d
    → IsPersistent d
unfolding lookup
lookup-IsPersistent [] code d h e = absurd cc
lookup-IsPersistent ((k, c) ∷ table) code d (p, h) e = elim (Bool-cases (k == code)) [
  | inl u ↦ subst IsPersistent (same_entry u) p
  | inr u ↦ lookup-IsPersistent table code d h (ground (arith, e, u))
]
  where
    same_entry : (k == code) ≡ true → c ≡ d
    same_entry u = ground (arith, e, u)

check_against-IsPersistent :
    (origin recovery code : Text) (d : IndexFailureDiagnostic)
    (found : Option IndexFailureDiagnostic)
    → lookup code diagnostics_by_code ≡ found
    → check_against origin recovery found ≡ provided d
    → IsPersistent d
unfolding check_against
check_against-IsPersistent origin recovery code d none e h = absurd cc
check_against-IsPersistent origin recovery code d (some c) e h =
    lookup-IsPersistent diagnostics_by_code code d table-IsPersistent (e ∙ same_entry)
  where
    same_entry : some c ≡ some d
    same_entry = ground (arith, h)

validate-IsPersistent :
    (code origin recovery : Text) (d : IndexFailureDiagnostic)
    → validate_trimmed code origin recovery ≡ provided d
    → IsPersistent d
unfolding validate_trimmed
validate-IsPersistent code origin recovery d h =
    check_against-IsPersistent origin recovery code d (lookup code diagnostics_by_code) refl
      (ground (arith, h))

-- Every code that a rule gives is in the table.
abbrev is_some : Option IndexFailureDiagnostic → Bool
is_some none = false
is_some (some _) = true

abbrev is_known : Text → Bool
is_known code = is_some (lookup code diagnostics_by_code)

fallback_known : is_known index_failed ≡ true
unfolding diagnostics_by_code bytes lookup text_beq index_failed
fallback_known = refl

rules_known :
    All (λ (_, code). is_known code ≡ true) (disconnected_rule ∷ timeout_rule ∷ later_rules)
unfolding diagnostics_by_code bytes lookup text_beq disconnected_rule timeout_rule later_rules
rules_known = (
  refl,
  (
    refl,
    (refl, (refl, (refl, (refl, (refl, (refl, (refl, (refl, (refl, (refl, (refl, tt))))))))))),
  ),
)

first_match-known :
    (s : Text) (rules : List Rule)
    → All (λ (_, code). is_known code ≡ true) rules
    → is_known (first_match s rules) ≡ true
unfolding first_match
first_match-known s [] h = fallback_known
first_match-known s ((words, code) ∷ rules) (k, h) = elim (Bool-cases (contains_any s words)) [
  | inl e ↦ rw e k
  | inr e ↦ rw e (first_match-known s rules h)
]

code_of-known : (status s : Text) → is_known (code_of status s) ≡ true
unfolding code_of
code_of-known status s =
    let (one, (two, later)) = rules_known in
    ground (arith, one, two, first_match-known s later_rules later)

known_entry-IsPersistent :
    (code : Text) (found : Option IndexFailureDiagnostic)
    → lookup code diagnostics_by_code ≡ found
    → is_some found ≡ true
    → IsPersistent (or_zero found)
known_entry-IsPersistent code none e h = absurd cc
known_entry-IsPersistent code (some d) e h =
    lookup-IsPersistent diagnostics_by_code code d table-IsPersistent e

-- Whatever an old client writes, its error is classified as a diagnostic of the table, which reads
-- back as itself from the columns that it is stored in.
pub classify-IsPersistent :
    (lower : Text → Text) (status detail : Text)
    → IsPersistent (classify_index_failure lower status detail)
unfolding classify_index_failure
classify-IsPersistent lower status detail =
    let code = code_of status (lower (trim_space detail)) in
    known_entry-IsPersistent code (lookup code diagnostics_by_code) refl
      (code_of-known status (lower (trim_space detail)))

some_injective : (a b : IndexFailureDiagnostic) → some a ≡ some b → a ≡ b
some_injective a b p = cc

report-IsPersistent :
    (lower : Text → Text) (status detail : Text) (report : Report) (d : IndexFailureDiagnostic)
    → ((e : IndexFailureDiagnostic) → report ≡ provided e → IsPersistent e)
    → resolve_report lower status detail report ≡ some d
    → IsPersistent d
unfolding resolve_report
report-IsPersistent lower status detail nothing d h e =
    let c = classify_index_failure lower status detail in
    subst IsPersistent (some_injective c d e) (classify-IsPersistent lower status detail)
report-IsPersistent lower status detail invalid d h e = absurd cc
report-IsPersistent lower status detail (provided c) d h e =
    h d (ap provided (some_injective c d e))

-- A diagnostic that is resolved for a failed job, reported by the client or classified from the
-- error's text, reads back as itself from the columns that it is stored in, so it is never the
-- zero value: no reader sees a code without its origin and recovery.
pub resolve_reported_persistent :
    (lower : Text → Text) (status detail code origin recovery : Text) (d : IndexFailureDiagnostic)
    → resolve_reported lower status detail code origin recovery ≡ some d
    → persisted_diagnostic d.code d.origin d.recovery ≡ some d
unfolding resolve_reported validate_reported
resolve_reported_persistent lower status detail code origin recovery d h =
    report-IsPersistent lower status detail
      (validate_trimmed (trim_space code) (trim_space origin) (trim_space recovery)) d
      (λ e p. validate-IsPersistent (trim_space code) (trim_space origin) (trim_space recovery) e p)
      h
