-- ===== src/Config/Validation/Prompts.antt =====
-- Which prompt paths `validate` accepts.
use ai_memmail.Prelude.{
  true, false, not, List, [], ◌∷◌, ◌≡◌, ◌≢◌, ◌↔◌, refl, arith, All, All-append, any, map, select,
}
use ai_memmail.Prelude.Result.{ok}
use ai_memmail.Text.{Text, split}
use ai_memmail.Paths.{
  is_absolute, components, tail_components, leading_component, component, is_kept, is_slash,
  Component, root_dir, parent_dir, is_prompt_escape_component,
}
use ai_memmail.Config.Validation.{validate_prompt_path}
use ai_memmail.Config.Validation.Valid.{IsPromptPath}
use ai_memmail.Config.Validation.Loops.{ensure_lem, then_iff, then_given_iff, not_iff}
use ai_memmail.Config.Validation.Sound.{is_empty_iff}

abbrev IsInside : Component → Type 0
IsInside c = c ≢ parent_dir

-- A component that is no root escapes only as `..`.
is_prompt_escape_component_iff :
    (c : Component) → c ≢ root_dir → (is_prompt_escape_component c ≡ false) ↔ IsInside c
unfolding is_prompt_escape_component
is_prompt_escape_component_iff c h = ground arith

any-is_prompt_escape_component_iff :
    (cs : List Component)
    → All (λ c. c ≢ root_dir) cs
    → (not (any is_prompt_escape_component cs) ≡ true) ↔ All IsInside cs
any-is_prompt_escape_component_iff [] h = (λ e. tt, λ e. refl)
any-is_prompt_escape_component_iff (c ∷ cs) (h, k) =
    ground (arith, is_prompt_escape_component_iff c h, any-is_prompt_escape_component_iff cs k)

component-ne-root : (part : Text) → component part ≢ root_dir
component-ne-root part = ground arith

tail_rootless : (parts : List Text) → All (λ c. c ≢ root_dir) (map component (select is_kept parts))
tail_rootless [] = tt
tail_rootless (part ∷ parts) = ground (arith, tail_rootless parts, component-ne-root part)

tails_rootless : (path : Text) → All (λ c. c ≢ root_dir) (tail_components path)
unfolding tail_components
tails_rootless path = tail_rootless (split is_slash path)

leading_rootless : (path : Text) → All (λ c. c ≢ root_dir) (leading_component path)
unfolding leading_component
leading_rootless path = ground arith

components_rootless :
    (path : Text) → is_absolute path ≡ false → All (λ c. c ≢ root_dir) (components path)
unfolding components
components_rootless path h = rw h (
    All-append (λ c. c ≢ root_dir) (leading_component path) (tail_components path)
      (leading_rootless path) (tails_rootless path))

pub validate_prompt_path_iff :
    (path field : Text) → (validate_prompt_path path field ≡ ok tt) ↔ IsPromptPath path
unfolding validate_prompt_path
validate_prompt_path_iff path field = then_iff (ensure_lem _ (is_empty_iff path)) (
    then_given_iff (ensure_lem _ (not_iff (is_absolute path))) (λ h.
      ensure_lem _
        (any-is_prompt_escape_component_iff (components path) (components_rootless path h))))
