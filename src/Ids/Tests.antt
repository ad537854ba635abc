-- ===== src/Ids/Tests.antt =====
-- Runs of src/naiw_tasks/naiw_tasks/ids.py.
use Prim.Native.String
use neotolis_ai_workbench.Base.{◌≤◌, ◌≡◌, refl, true, false, str_eq}
use neotolis_ai_workbench.Ids.{
  validate_task_id, validate_project_alias, validate_secret_name, id_char, secret_char, has_dots,
  id_rest, at_end, secret_rest,
}
use neotolis_ai_workbench.Ids.Shape.{AllBut, validate_task_id_sound, validate_secret_name_sound}

valid_id : validate_task_id "demo-001" ≡ true
unfolding validate_task_id id_rest
valid_id = refl

newline_passes : validate_task_id "demo-001\n" ≡ true
unfolding validate_task_id id_rest at_end
newline_passes = refl

upper_fails : validate_project_alias "Demo" ≡ false
unfolding validate_project_alias
upper_fails = refl

validate_task_id_sound_example :
    AllBut id_char "demo-001" × (1 ≤ String.count "demo-001") × (String.count "demo-001" ≤ 65)
validate_task_id_sound_example = validate_task_id_sound "demo-001" valid_id

valid_name : validate_secret_name "api.key" ≡ true
unfolding validate_secret_name secret_rest has_dots
valid_name = refl

validate_secret_name_sound_example :
    AllBut secret_char "api.key"
    × (str_eq "api.key" "" ≡ false)
    × (str_eq "api.key" "." ≡ false)
    × (has_dots "api.key" ≡ false)
validate_secret_name_sound_example = validate_secret_name_sound "api.key" valid_name
