-- ===== src/Tail/Account.antt =====
-- What a call of `tail_events` reports of every line.
use mathlib.Core.Path.{subst}
use mathlib.Core.Option.{some-injective}
use neotolis_ai_workbench.Base.{
  ℕ, ◌≤◌, ◌≡◌, refl, sym, ◌∙◌, String, Option, none, some, List, [], ◌∷◌, arith, one_of, length,
  Bool-cases, inl, inr,
}
use neotolis_ai_workbench.Json
use neotolis_ai_workbench.Json.{Json, Fields, str, obj, arr}
use neotolis_ai_workbench.Events.{Event}
use neotolis_ai_workbench.Tail.{
  Formats, Decoded, text, undecodable, Loaded, value, unparsable, fails, Malformed, Line, event,
  bad, raises, Tailed, valid_kinds, is_iso_datetime, read_line, validate_event, put, read_lines,
  read_chunk, check_payload, check_ts, check_version, check_kind, load_line, decode_line,
}
use neotolis_ai_workbench.Tail.Lines.{Bytes}
use neotolis_ai_workbench.Tail.Resume.{tail_file, tail_file-read_chunk}
use neotolis_ai_workbench.Tail.Validity.{IsValid, read_line-IsValid, unread_lines}

-- What is shown of a line: its text, or the text for bytes that are not UTF-8.
pub shown : Decoded → String
shown (text line) = line
shown (undecodable msg s) = s

module _ (F : Formats) where
  -- What is reported of the lines, one after the other: an event that meets the schema, or the line
  -- itself with the reason why it is not one.
  pub data Reports : List Bytes → List Event → List Malformed → Type 0 where
    no_more : Reports [] [] []
    as_event :
        {raw : Bytes} {lines : List Bytes} {e : Event} {es : List Event} {ms : List Malformed}
        → read_line F raw ≡ event e
        → IsValid F e
        → Reports lines es ms
        → Reports (raw ∷ lines) (e ∷ es) ms
    as_malformed :
        {raw : Bytes} {lines : List Bytes} {m : Malformed} {es : List Event} {ms : List Malformed}
        → read_line F raw ≡ bad m
        → m.raw_line ≡ shown (F.decode raw)
        → Reports lines es ms
        → Reports (raw ∷ lines) es (m ∷ ms)

  check_payload-bad :
      (o : Fields) (raw kind ts : String) (sv : Json) (v : Option Json) {m : Malformed}
      → check_payload F o raw kind ts sv v ≡ bad m
      → m.raw_line ≡ raw
  unfolding check_payload
  check_payload-bad o raw kind ts sv (some (obj payload)) p = ground arith
  check_payload-bad o raw kind ts sv _ p = cc p

  check_ts-bad :
      (o : Fields) (raw kind : String) (sv : Json) (v : Option Json) {m : Malformed}
      → check_ts F o raw kind sv v ≡ bad m
      → m.raw_line ≡ raw
  unfolding check_ts
  check_ts-bad o raw kind sv (some (str ts)) p = elim (Bool-cases (is_iso_datetime F ts)) [
    | inl t ↦ check_payload-bad o raw kind ts sv (Json.get "payload" o) (rw t at p)
    | inr n ↦ let q = rw n at p in cc q
  ]
  check_ts-bad o raw kind sv _ p = cc p

  check_version-bad :
      (o : Fields) (raw kind : String) (v : Option Json) {m : Malformed}
      → check_version F o raw kind v ≡ bad m
      → m.raw_line ≡ raw
  unfolding check_version
  check_version-bad o raw kind none p = cc p
  check_version-bad o raw kind (some sv) p = elim (Bool-cases (Json.equals_one (some sv))) [
    | inl s ↦ check_ts-bad o raw kind sv (Json.get "ts" o) (rw s at p)
    | inr n ↦ let q = rw n at p in cc q
  ]

  check_kind-bad :
      (o : Fields) (raw : String) (v : Option Json) {m : Malformed}
      → check_kind F o raw v ≡ bad m
      → m.raw_line ≡ raw
  unfolding check_kind
  check_kind-bad o raw (some (str kind)) p = elim (Bool-cases (one_of kind valid_kinds)) [
    | inl k ↦ check_version-bad o raw kind (Json.get "schema_version" o) (rw k at p)
    | inr n ↦ let q = rw n at p in cc q
  ]
  check_kind-bad o raw (some (arr items)) p = cc p
  check_kind-bad o raw (some (obj fields)) p = cc p
  check_kind-bad o raw _ p = cc p

  load_line-bad :
      (line : String) (v : Loaded) {m : Malformed} → load_line F line v ≡ bad m → m.raw_line ≡ line
  unfolding validate_event load_line
  load_line-bad line (value (obj o)) p = check_kind-bad o line (Json.get "kind" o) p
  load_line-bad line (value _) p = cc p
  load_line-bad line (unparsable msg) p = cc p
  load_line-bad line fails p = cc p

  decode_line-bad : (d : Decoded) {m : Malformed} → decode_line F d ≡ bad m → m.raw_line ≡ shown d
  unfolding decode_line shown
  decode_line-bad (text line) p = load_line-bad line (F.loads line) p
  decode_line-bad (undecodable msg s) p = cc p

  read_line-bad :
      (raw : Bytes) {m : Malformed} → read_line F raw ≡ bad m → m.raw_line ≡ shown (F.decode raw)
  unfolding read_line
  read_line-bad raw p = decode_line-bad (F.decode raw) p

  abbrev Reported : List Bytes → Tailed → Type 0
  Reported lines t = Reports lines t.valid t.malformed

  put-Reports :
      (raw : Bytes) (lines : List Bytes) (l : Line) (r : Option Tailed) {t : Tailed}
      → read_line F raw ≡ l
      → ((w : Tailed) → r ≡ some w → Reported lines w)
      → put F l r ≡ some t
      → Reported (raw ∷ lines) t
  unfolding put
  put-Reports raw lines raises r q h p = cc p
  put-Reports raw lines (event e) none q h p = cc p
  put-Reports raw lines (bad m) none q h p = cc p
  put-Reports raw lines (event e) (some w) q h p =
      subst (Reported (raw ∷ lines)) (some-injective _ _ p)
        (as_event q (read_line-IsValid F raw q) (h w refl))
  put-Reports raw lines (bad m) (some w) q h p =
      subst (Reported (raw ∷ lines)) (some-injective _ _ p)
        (as_malformed q (read_line-bad raw q) (h w refl))

  read_lines-Reports :
      (o : ℕ) (lines : List Bytes) {t : Tailed} → read_lines F o lines ≡ some t → Reported lines t
  unfolding read_lines
  read_lines-Reports o [] p = subst (Reported []) (some-injective _ _ p) no_more
  read_lines-Reports o (x ∷ xs) p =
      put-Reports x xs (read_line F x) (read_lines F o xs) refl
        (λ w. read_lines-Reports o xs {t = w}) p

  -- A call of `tail_events` that returns, on a regular file and from an offset inside it, has reported
  -- every complete line after the offset once, in the order of the file: as the event that it is read
  -- as, which meets the schema; or as malformed, with the line itself, and the reason that was found.
  pub tail_events-Reports :
      (c : Bytes) (o : ℕ) {t : Tailed}
      → o ≤ length c
      → tail_file F c o ≡ some t
      → Reports (unread_lines F c o) t.valid t.malformed
  unfolding read_chunk
  tail_events-Reports c o h p =
      read_lines-Reports _ (unread_lines F c o) (sym (tail_file-read_chunk F c o h) ∙ p)
