-- ===== src/Mail/Raw/Headers.antt =====
-- Each recipient header of a raw message is the value of one line and of those that go on with it.
use mcp_gw.Common.{
  String, Bool, true, false, not, ◌&&◌, ◌||◌, Option, none, some, is_some, List, [], ◌∷◌, ◌++◌, ◌≡◌,
  ◌≢◌, sym, ap, ◌∙◌, inl, inr, Bool-cases, eq_of_some-eq, bind-eq-some, if-eq-some, if◌then◌else◌,
}
use mathlib.Core.Path.{subst}
use mcp_gw.Common.Dict.{Dict, lookup, insert, lookup-insert_self, lookup-insert_ne}
use mcp_gw.Common.Lists.{includes}
use mcp_gw.Common.Text.{◌<>◌, trim, after, before, has_char, starts_with_char}
use mcp_gw.Mail.Raw.{
  recipient_headers, Fields, is_field_name, folded, new_field, read_line, read_lines,
}

-- The line goes on with the one before it.
abbrev pub goes_on : String → Bool
goes_on line = starts_with_char b' ' line || starts_with_char b'\t' line

-- A value with the lines that go on with it, each after a space
abbrev pub unfolded : String → List String → String
unfolded value [] = value
unfolded value (line ∷ later) =
    let more = unfolded (value <> " " <> trim line) later in if goes_on line then more else value

-- A field of the name has the value.
abbrev Holds : String → String → Fields → Type 0
Holds name value f = lookup name f.fields ≡ some value

module _ (to_lower_case : String → String) where
  new_field-made :
      (name line : String) (fields : Dict String) (f : Fields)
      → new_field to_lower_case name line fields ≡ some f
      → ((includes recipient_headers name && is_some (lookup name fields)) ≡ false)
        × (record { fields = insert name (trim (after b':' line)) fields; last_name = some name }
            ≡ f)
  unfolding new_field
  new_field-made name line fields f h =
      let (ok_, k) = if-eq-some (not (is_field_name name)) _ h in
      let (once, last) =
        if-eq-some (includes recipient_headers name && is_some (lookup name fields)) _ k in
      (once, eq_of_some-eq last)

  -- A recipient header that is there is not set again.
  new_field-Holds :
      (name value other line : String) (fields : Dict String) (f : Fields)
      → includes recipient_headers name ≡ true
      → lookup name fields ≡ some value
      → new_field to_lower_case other line fields ≡ some f
      → (f.last_name ≢ some name) × Holds name value f
  new_field-Holds name value other line fields f recipient held h =
      let (once, made) = new_field-made other line fields f h in
      let apart : other ≢ name =
        λ e. let k : true ≡ false = rw (e, recipient, held) at once in cc in
      (
        λ e. apart (eq_of_some-eq (ap (λ (g : Fields). g.last_name) made ∙ e)),
        subst (Holds name value) made
            (lookup-insert_ne other name (trim (after b':' line)) fields apart ∙ held),
      )

  read_line-new :
      (line : String) (f g : Fields)
      → goes_on line ≡ false
      → read_line to_lower_case line f ≡ some g
      → new_field to_lower_case (to_lower_case (before b':' line)) line f.fields ≡ some g
  unfolding read_line
  read_line-new line f g fresh h =
      let k =
        if-eq-some (not (has_char b':' line) || starts_with_char b':' line)
          (new_field to_lower_case (to_lower_case (before b':' line)) line f.fields)
          (rw fresh at h) in
      k.1

  read_line-folded :
      (line : String) (f g : Fields)
      → goes_on line ≡ true
      → read_line to_lower_case line f ≡ some g
      → folded line f.last_name f.fields ≡ some g
  unfolding read_line
  read_line-folded line f g on h = rw on at h

  -- A field that no line goes on with any more stays.
  folded-Holds :
      (name value line : String) (last : Option String) (fields : Dict String) (g : Fields)
      → last ≢ some name
      → lookup name fields ≡ some value
      → folded line last fields ≡ some g
      → (g.last_name ≢ some name) × Holds name value g
  unfolding folded
  folded-Holds name value line none fields g apart held h = cc
  folded-Holds name value line (some other) fields g apart held h =
      let made = eq_of_some-eq h in
      (
        λ e. apart (ap (λ (x : Fields). x.last_name) made ∙ e),
        subst (Holds name value) made
            (lookup-insert_ne other name _ fields (λ e. apart (ap some e)) ∙ held),
      )

  read_lines-Holds :
      (name value : String) (lines : List String) (f g : Fields)
      → includes recipient_headers name ≡ true
      → f.last_name ≢ some name
      → Holds name value f
      → read_lines to_lower_case lines f ≡ some g
      → Holds name value g
  unfolding read_lines
  read_lines-Holds name value [] f g recipient apart held h =
      subst (Holds name value) (eq_of_some-eq h) held
  read_lines-Holds name value (line ∷ lines) f g recipient apart held h =
      let (next, one, rest) = bind-eq-some (read_line to_lower_case line f) _ h in
      let (apart', held') : (next.last_name ≢ some name) × Holds name value next =
        elim (Bool-cases (goes_on line)) [
          | inl on ↦
              folded-Holds name value line f.last_name f.fields next apart held
                (read_line-folded line f next on one)
          | inr fresh ↦
              new_field-Holds name value (to_lower_case (before b':' line)) line f.fields next
                recipient held (read_line-new line f next fresh one)
        ] in
      read_lines-Holds name value lines next g recipient apart' held' rest

  -- The field that was read last takes up the lines that go on with it.
  read_lines-unfolded :
      (name value : String) (lines : List String) (f g : Fields)
      → includes recipient_headers name ≡ true
      → f.last_name ≡ some name
      → Holds name value f
      → read_lines to_lower_case lines f ≡ some g
      → Holds name (unfolded value lines) g
  unfolding read_lines folded
  read_lines-unfolded name value [] f g recipient last held h =
      subst (Holds name value) (eq_of_some-eq h) held
  read_lines-unfolded name value (line ∷ lines) f g recipient last held h =
      let (next, one, rest) = bind-eq-some (read_line to_lower_case line f) _ h in
      elim (Bool-cases (goes_on line)) [
        | inl on ↦
            let made = eq_of_some-eq (rw (last, held) at (read_line-folded line f next on one)) in
            rw on (
              read_lines-unfolded name (value <> " " <> trim line) lines next g recipient
                (ap (λ (x : Fields). x.last_name) (sym made))
                (subst (Holds name (value <> " " <> trim line)) made
                  (lookup-insert_self name (value <> " " <> trim line) f.fields))
                rest)
        | inr fresh ↦
            let (apart, kept) =
              new_field-Holds name value (to_lower_case (before b':' line)) line f.fields next
                recipient held (read_line-new line f next fresh one) in
            rw fresh (read_lines-Holds name value lines next g recipient apart kept rest)
      ]

  read_lines-ahead :
      (ahead later : List String) (f g : Fields)
      → read_lines to_lower_case (ahead ++ later) f ≡ some g
      → (f' : Fields) × (read_lines to_lower_case later f' ≡ some g)
  unfolding read_lines
  read_lines-ahead [] later f g h = (f, h)
  read_lines-ahead (line ∷ ahead) later f g h =
      let (next, one, rest) = bind-eq-some (read_line to_lower_case line f) _ h in
      read_lines-ahead ahead later next g rest

  -- Wherever the line of a recipient header stands, the header is read as that line's value.
  pub read_lines-header :
      (ahead later : List String) (line : String) (f g : Fields)
      → read_lines to_lower_case (ahead ++ line ∷ later) f ≡ some g
      → goes_on line ≡ false
      → includes recipient_headers (to_lower_case (before b':' line)) ≡ true
      → lookup (to_lower_case (before b':' line)) g.fields
        ≡ some (unfolded (trim (after b':' line)) later)
  unfolding read_lines
  read_lines-header ahead later line f g h fresh recipient =
      let name = to_lower_case (before b':' line) in
      let (f', k) = read_lines-ahead ahead (line ∷ later) f g h in
      let (next, one, rest) = bind-eq-some (read_line to_lower_case line f') _ k in
      let (once, made) =
        new_field-made name line f'.fields next (read_line-new line f' next fresh one) in
      read_lines-unfolded name (trim (after b':' line)) later next g recipient
        (ap (λ (x : Fields). x.last_name) (sym made))
        (subst (Holds name (trim (after b':' line))) made
          (lookup-insert_self name (trim (after b':' line)) f'.fields))
        rest
