-- ===== src/Model/Names.antt =====
-- The names of the statuses, read and written.
use neotolis_ai_workbench.Base.{
  ◌≡◌, refl, String, none, some, ◌⊎◌, inl, inr, false, str_eq, str-cases,
}
use neotolis_ai_workbench.Model.{
  Status, created, running, interrupted, waiting_for_user, completed, failed, cancelled, status_str,
  status_of_str, from_str_lenient,
}

pub status_of_str-status_str : (st : Status) → status_of_str (status_str st) ≡ some st
unfolding status_of_str
status_of_str-status_str created = refl
status_of_str-status_str running = refl
status_of_str-status_str interrupted = refl
status_of_str-status_str waiting_for_user = refl
status_of_str-status_str completed = refl
status_of_str-status_str failed = refl
status_of_str-status_str cancelled = refl

-- `s` differs from each of the seven names.
abbrev pub Unnamed : String → Type 0
Unnamed s = (st : Status) → str_eq s (status_str st) ≡ false

-- A text is the name of a status, or differs from all of them.
pub name-cases : (s : String) → ((st : Status) × (s ≡ status_str st)) ⊎ Unnamed s
name-cases s = elim (str-cases s "created") [
  | inl e ↦ inl (created, e)
  | inr n₁ ↦ elim (str-cases s "running") [
    | inl e ↦ inl (running, e)
    | inr n₂ ↦ elim (str-cases s "interrupted") [
      | inl e ↦ inl (interrupted, e)
      | inr n₃ ↦ elim (str-cases s "waiting_for_user") [
        | inl e ↦ inl (waiting_for_user, e)
        | inr n₄ ↦ elim (str-cases s "completed") [
          | inl e ↦ inl (completed, e)
          | inr n₅ ↦ elim (str-cases s "failed") [
            | inl e ↦ inl (failed, e)
            | inr n₆ ↦ elim (str-cases s "cancelled") [
              | inl e ↦ inl (cancelled, e)
              | inr n₇ ↦ inr (elim [
                | created ↦ n₁
                | running ↦ n₂
                | interrupted ↦ n₃
                | waiting_for_user ↦ n₄
                | completed ↦ n₅
                | failed ↦ n₆
                | cancelled ↦ n₇
              ])
            ]
          ]
        ]
      ]
    ]
  ]
]

pub status_of_str_of_Unnamed : (s : String) → Unnamed s → status_of_str s ≡ none
unfolding status_of_str
status_of_str_of_Unnamed s u =
    rw (u created, u running, u interrupted, u waiting_for_user, u completed, u failed, u cancelled)

-- A text that names a status is read as that status, every other text is passed through as it is,
-- and the text of a status is never passed through.
pub from_str_lenient_correct :
    (s : String)
    → ((st : Status) × (s ≡ status_str st) × (from_str_lenient s ≡ inl st))
      ⊎ ((from_str_lenient s ≡ inr s) × ((st : Status) → ¬ (s ≡ status_str st)))
unfolding from_str_lenient
from_str_lenient_correct s = elim (name-cases s) [
  | inl (st, e) ↦ inl (st, e, rw e (cc (status_of_str-status_str st)))
  | inr u ↦
      let n = status_of_str_of_Unnamed s u in
      inr (rw (n, from_str_lenient), λ st e. cc (n, e, status_of_str-status_str st))
]
