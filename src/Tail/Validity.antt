-- ===== src/Tail/Validity.antt =====
-- Which lines of the journal are events of the schema, and when a call of `tail_events` raises.
use neotolis_ai_workbench.Base.{
  ℕ, ◌≤◌, ◌≡◌, refl, String, true, false, Option, none, some, List, [], ◌∷◌, ◌++◌, arith, str_eq,
  one_of, length, length-append, drop, drop-length-append, Bool-cases, inl, inr,
}
use neotolis_ai_workbench.Json
use neotolis_ai_workbench.Json.{Json, Fields, Items, str, obj, arr}
use neotolis_ai_workbench.Events.{Event}
use neotolis_ai_workbench.Tail.{
  Formats, Decoded, text, Loaded, value, Line, event, bad, raises, valid_kinds, needs_reason,
  is_iso_datetime, read_line, validate_event, put, read_lines, read_chunk, has_reason,
  check_payload, check_ts, check_version, check_kind, load_line, decode_line,
}
use neotolis_ai_workbench.Tail.Lines.{Bytes, newline, split, init, last}
use neotolis_ai_workbench.Tail.Resume.{tail_file, tail_file-read_chunk}

module _ (F : Formats) where
  -- What the schema asks of an event.
  pub record IsValid (e : Event) : Type 0 where
    pub known : one_of e.kind valid_kinds ≡ true
    pub dated : is_iso_datetime F e.ts ≡ true
    pub version : Json.equals_one (some e.schema_version) ≡ true
    pub reasoned : needs_reason e.kind ≡ true → has_reason F (Json.get "reason" e.payload) ≡ true

  check_payload-IsValid :
      (o : Fields) (raw kind ts : String) (sv : Json) (v : Option Json) {e : Event}
      → one_of kind valid_kinds ≡ true
      → Json.equals_one (some sv) ≡ true
      → is_iso_datetime F ts ≡ true
      → check_payload F o raw kind ts sv v ≡ event e
      → IsValid e
  unfolding check_payload
  check_payload-IsValid o raw kind ts sv (some (obj payload)) k s t p = ground arith
  check_payload-IsValid o raw kind ts sv _ k s t p = cc

  check_ts-IsValid :
      (o : Fields) (raw kind : String) (sv : Json) (v : Option Json) {e : Event}
      → one_of kind valid_kinds ≡ true
      → Json.equals_one (some sv) ≡ true
      → check_ts F o raw kind sv v ≡ event e
      → IsValid e
  unfolding check_ts
  check_ts-IsValid o raw kind sv (some (str ts)) k s p = elim (Bool-cases (is_iso_datetime F ts)) [
    | inl t ↦ check_payload-IsValid o raw kind ts sv (Json.get "payload" o) k s t (rw t at p)
    | inr n ↦ cc n
  ]
  check_ts-IsValid o raw kind sv _ k s p = cc

  check_version-IsValid :
      (o : Fields) (raw kind : String) (v : Option Json) {e : Event}
      → one_of kind valid_kinds ≡ true
      → check_version F o raw kind v ≡ event e
      → IsValid e
  unfolding check_version
  check_version-IsValid o raw kind none k p = cc
  check_version-IsValid o raw kind (some sv) k p = elim (Bool-cases (Json.equals_one (some sv))) [
    | inl s ↦ check_ts-IsValid o raw kind sv (Json.get "ts" o) k s (rw s at p)
    | inr n ↦ cc n
  ]

  check_kind-IsValid :
      (o : Fields) (raw : String) (v : Option Json) {e : Event}
      → check_kind F o raw v ≡ event e
      → IsValid e
  unfolding check_kind
  check_kind-IsValid o raw (some (str kind)) p = elim (Bool-cases (one_of kind valid_kinds)) [
    | inl k ↦ check_version-IsValid o raw kind (Json.get "schema_version" o) k (rw k at p)
    | inr n ↦ ground arith
  ]
  check_kind-IsValid o raw (some (arr items)) p = cc
  check_kind-IsValid o raw _ p = cc

  pub read_line-IsValid : (raw : Bytes) {e : Event} → read_line F raw ≡ event e → IsValid e
  unfolding read_line validate_event
  read_line-IsValid raw p = load_decoded (F.decode raw) p
    where
      load_loaded :
          (line : String) (v : Loaded) {e : Event} → load_line F line v ≡ event e → IsValid e
      load_loaded line (value (obj o)) q = check_kind-IsValid o line (Json.get "kind" o) q
      load_loaded line _ q = cc

      load_decoded : (d : Decoded) {e : Event} → decode_line F d ≡ event e → IsValid e
      load_decoded (text line) q = load_loaded line (F.loads line) q
      load_decoded _ q = cc

  -- The complete lines of the part of the file that is read.
  abbrev pub unread_lines : Bytes → ℕ → List Bytes
  unread_lines c o = init (split (drop o c))

  put-none : (l : Line) → put F l none ≡ none
  unfolding put
  put-none raises = refl
  put-none (event e) = refl
  put-none (bad m) = refl

  read_lines_raises :
      (o : ℕ) (xs : List Bytes) (raw : Bytes) (ys : List Bytes)
      → read_line F raw ≡ raises
      → read_lines F o (xs ++ raw ∷ ys) ≡ none
  unfolding read_lines put
  read_lines_raises o [] raw ys h = rw h
  read_lines_raises o (x ∷ xs) raw ys h =
      rw (read_lines_raises o xs raw ys h) (put-none (read_line F x))

  unhashable_raises :
      (raw : Bytes) (line : String) (o : Fields) (items : Items)
      → F.decode raw ≡ text line
      → F.loads line ≡ value (obj o)
      → Json.get "kind" o ≡ some (arr items)
      → read_line F raw ≡ raises
  unfolding read_line validate_event
  unhashable_raises raw line o items d l k = rw (d, decode_line, l, k)

  -- A complete line whose `kind` is a list makes every call raise that has the line still to read.
  pub tail_events_raises :
      (c : Bytes) (offset : ℕ) (xs ys : List Bytes) (raw : Bytes) (line : String) (o : Fields)
      (items : Items)
      → offset ≤ length c
      → unread_lines c offset ≡ xs ++ raw ∷ ys
      → F.decode raw ≡ text line
      → F.loads line ≡ value (obj o)
      → Json.get "kind" o ≡ some (arr items)
      → tail_file F c offset ≡ none
  unfolding read_chunk
  tail_events_raises c offset xs ys raw line o items h u d l k =
      rw (tail_file-read_chunk F c offset h)
        (rw u (read_lines_raises _ xs raw ys (unhashable_raises raw line o items d l k)))

  -- Conversely, a line that meets the schema is read as its event.
  pub read_line-event :
      (raw : Bytes) (line : String) (o : Fields) (e : Event)
      → F.decode raw ≡ text line
      → F.loads line ≡ value (obj o)
      → Json.get "kind" o ≡ some (str e.kind)
      → Json.get "schema_version" o ≡ some e.schema_version
      → Json.get "ts" o ≡ some (str e.ts)
      → Json.get "payload" o ≡ some (obj e.payload)
      → IsValid e
      → read_line F raw ≡ event e
  unfolding read_line validate_event
  read_line-event raw line o e d l k v t p ok =
      rw (d, decode_line, l, k, ok.known, v, ok.version, t, ok.dated, p)
        (ground (arith, ok.reasoned))

  pub has_reason_str : (r : String) → str_eq r "" ≡ false → has_reason F (some (str r)) ≡ true
  unfolding has_reason
  has_reason_str r h = rw h

  -- One complete line that follows what has been read, and is read as an event.
  pub tail_file_line :
      (file raw : Bytes) {e : Event}
      → split (raw ++ newline ∷ []) ≡ raw ∷ [] ∷ []
      → read_line F raw ≡ event e
      → let file' = file ++ (raw ++ newline ∷ []) in
        tail_file F file' (length file)
        ≡ some (record { offset = length file'; valid = e ∷ []; malformed = [] })
  unfolding read_chunk init last read_lines put
  tail_file_line file raw {e} s r =
      let line = raw ++ newline ∷ [] in
      rw
        (
          tail_file-read_chunk F (file ++ line) (length file)
              (omega (arith, length-append file line)),
          drop-length-append file line (length file) refl,
          s,
          r,
          length-append file line,
        )
        (ground arith)
