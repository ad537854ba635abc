-- ===== src/Signal/RoundTrip.antt =====
-- What `naiw-signal` writes is what `tail_events` reads.
use mathlib.Core.Path.{subst}
use mathlib.Core.Option.{some-injective}
use neotolis_ai_workbench.Base.{
  ℕ, ◌≡◌, refl, String, true, false, Option, none, some, [], ◌∷◌, ◌++◌, arith, str_eq, one_of,
  length, take_all, ◌==◌, Bool-cases, inl, inr, All,
}
use neotolis_ai_workbench.Json
use neotolis_ai_workbench.Json.{Json, Fields, int, str, obj, field, end}
use neotolis_ai_workbench.Events
use neotolis_ai_workbench.Events.{Event}
use neotolis_ai_workbench.Tail.{
  Formats, text, value, event, valid_kinds, is_iso_datetime, read_line,
}
use neotolis_ai_workbench.Tail.Lines.{Bytes, newline, split}
use neotolis_ai_workbench.Tail.Resume.{tail_file}
use neotolis_ai_workbench.Tail.Validity.{IsValid, read_line-event, has_reason_str, tail_file_line}
use neotolis_ai_workbench.Signal.{
  Io, success, Command, done, fail, wait, event_of, append_event, signal, serialise,
}

-- No byte is a newline.
abbrev pub IsOneLine : Bytes → Type 0
IsOneLine = All (λ (c : ℕ). (c == newline) ≡ false)

split_line : (l : Bytes) → IsOneLine l → split (l ++ newline ∷ []) ≡ l ∷ [] ∷ []
unfolding split
split_line [] h = refl
split_line (c ∷ l) (e, h) = rw (split_line l h, e)

done-IsValid :
    (F : Formats) (ts : String) (s : Option String)
    → is_iso_datetime F ts ≡ true
    → IsValid F (Events.done ts s)
unfolding Events.done Json.equals_one
done-IsValid F ts none iso = record {
  known = refl;
  dated = iso;
  version = refl;
  reasoned = λ h. cc h;
}
done-IsValid F ts (some s) iso = record {
  known = refl;
  dated = iso;
  version = refl;
  reasoned = λ h. cc h;
}

abbrev with_reason : String → String → String → Event
with_reason ts kind r = record {
  ts = ts;
  kind = kind;
  payload = field "reason" (str r) end;
  schema_version = int 1;
}

with_reason-IsValid :
    (F : Formats) (ts kind r : String)
    → one_of kind valid_kinds ≡ true
    → is_iso_datetime F ts ≡ true
    → str_eq r "" ≡ false
    → IsValid F (with_reason ts kind r)
unfolding Json.equals_one Json.get
with_reason-IsValid F ts kind r k iso h = record {
  known = k;
  dated = iso;
  version = refl;
  reasoned = λ _. has_reason_str F r h;
}

event_of-IsValid :
    (F : Formats) (ts : String) (c : Command) {e : Event}
    → event_of ts c ≡ some e
    → is_iso_datetime F ts ≡ true
    → IsValid F e
unfolding event_of Events.fail Events.wait
event_of-IsValid F ts (done s) p iso =
    subst (IsValid F) (some-injective _ _ p) (done-IsValid F ts s iso)
event_of-IsValid F ts (fail r) p iso = elim (Bool-cases (str_eq r "")) [
  | inl empty ↦ cc (rw empty at p)
  | inr h ↦
      subst (IsValid F) (some-injective _ _ (rw h at p))
        (with_reason-IsValid F ts "fail" r refl iso h)
]
event_of-IsValid F ts (wait r) p iso = elim (Bool-cases (str_eq r "")) [
  | inl empty ↦ cc (rw empty at p)
  | inr h ↦
      subst (IsValid F) (some-injective _ _ (rw h at p))
        (with_reason-IsValid F ts "wait" r refl iso h)
]

module _ (F : Formats) (dumps : Fields → Bytes) where
  -- The dumped text of a dict is one line, and is decoded and loaded as the dict.
  pub record Dumps (d : Fields) (line : String) : Type 0 where
    pub one_line : IsOneLine (dumps d)
    pub decoded : F.decode (dumps d) ≡ text line
    pub loaded : F.loads line ≡ value (obj d)

  read_line-event_of :
      (ts : String) (c : Command) (line : String) {e : Event}
      → event_of ts c ≡ some e
      → is_iso_datetime F ts ≡ true
      → Dumps (Events.as_dict e) line
      → read_line F (dumps (Events.as_dict e)) ≡ event e
  read_line-event_of ts c line {e} p iso w =
      read_line-event F _ line (Events.as_dict e) e w.decoded w.loaded
        (unfold Events.as_dict Json.get in refl) (unfold Events.as_dict Json.get in refl)
        (unfold Events.as_dict Json.get in refl) (unfold Events.as_dict Json.get in refl)
        (event_of-IsValid F ts c p iso)

  pub appended_line :
      (io : Io) (d : Fields) (file : Bytes)
      → (append_event dumps io d file).1 ≡ success
      → (append_event dumps io d file).0 ≡ file ++ serialise dumps d
  unfolding append_event
  appended_line io d file h = grind (arith, take_all)

  pub signal_of_event :
      (io : Io) (ts : String) (c : Command) (file : Bytes) {e : Event}
      → event_of ts c ≡ some e
      → signal dumps io ts c file ≡ append_event dumps io (Events.as_dict e) file
  unfolding signal
  signal_of_event io ts c file p = rw (p, signal)

  -- If `naiw-signal` succeeds, at a time that is read as a date and with an event whose dump is one
  -- line that decodes and loads back, then `tail_events` from the old end of the journal returns the
  -- event, no malformed line, and the new end of the journal as its offset.
  pub tail_events-signal :
      (io : Io) (ts : String) (c : Command) (file : Bytes) (line : String) {e : Event}
      → event_of ts c ≡ some e
      → is_iso_datetime F ts ≡ true
      → Dumps (Events.as_dict e) line
      → (signal dumps io ts c file).1 ≡ success
      → let file' = (signal dumps io ts c file).0 in
        tail_file F file' (length file)
        ≡ some (record { offset = length file'; valid = e ∷ []; malformed = [] })
  unfolding serialise
  tail_events-signal io ts c file line {e} p iso w ok =
      let d = Events.as_dict e in
      let s = signal_of_event io ts c file p in
      rw (s, appended_line io d file (rw s at ok))
        (tail_file_line F file (dumps d) (split_line (dumps d) w.one_line)
          (read_line-event_of ts c line p iso w))
