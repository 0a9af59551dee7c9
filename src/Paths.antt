-- ===== src/Paths.antt =====
-- Paths as std::path reads them on Unix, for crates/server/src/config.rs and prompts.rs. There is no
-- drive prefix on Unix, so `Component::Prefix` does not occur.
use ai_memmail.Prelude.{
  ◌≡◌, refl, ℕ, Bool, true, false, List, [], ◌∷◌, ◌++◌, map, if◌then◌else◌, select, is_empty, not,
  ◌==◌, ℕ_eq, list_beq,
}
use ai_memmail.Text.{Text, Text_eq, text, split}

pub data Component : Type 0 where
  root_dir cur_dir parent_dir : Component
  normal : Text → Component

-- Path::is_absolute.
unfoldable pub is_absolute : Text → Bool
is_absolute [] = false
is_absolute (c ∷ path) = c == b'/'

abbrev pub is_slash : ℕ → Bool
is_slash c = c == b'/'

-- A part between slashes; an empty one and `.` are left out.
abbrev pub is_kept : Text → Bool
is_kept part = if is_empty part then false else not (part == text ".")

abbrev pub component : Text → Component
component part = if part == text ".." then parent_dir else normal part

unfoldable pub tail_components : Text → List Component
unfolding split
tail_components path = map component (select is_kept (split is_slash path))

-- Path::components: `.` counts only at the start of a relative path.
unfoldable pub leading_component : Text → List Component
unfolding split
leading_component path = elim (split is_slash path) [
  | [] ↦ []
  | part ∷ parts ↦ if part == text "." then cur_dir ∷ [] else []
]

unfoldable pub components : Text → List Component
unfolding is_absolute tail_components leading_component
components path =
    (if is_absolute path then root_dir ∷ [] else leading_component path) ++ tail_components path

-- `is_prompt_escape_component` of config.rs and `is_escape_component` of prompts.rs.
unfoldable pub is_prompt_escape_component : Component → Bool
is_prompt_escape_component parent_dir = true
is_prompt_escape_component root_dir = true
is_prompt_escape_component cur_dir = false
is_prompt_escape_component (normal part) = false

components_example :
    components (text "./a//../b/.")
    ≡ cur_dir ∷ normal (text "a") ∷ parent_dir ∷ normal (text "b") ∷ []
unfolding components text leading_component tail_components list_beq
components_example = refl
