-- ===== src/Stripped.antt =====
-- `_strip_text_fields` of reverso/middleware/responses_think_stripper.py: a Responses payload without
-- reasoning. A stripper of a streamed text is an argument, as are `strip_think_blocks` and the `strip` of a
-- text. A stripper that is handed down is passed on as it was left.
pub mod Clean
pub mod Deltas
use reverso_llm.Prelude.{
  String, Bool, true, false, ◌&&◌, ◌||◌, not, Option, none, some, if◌then◌else◌, ◌==◌, text_key,
}
use reverso_llm.Json.{
  Json, null, bool, int, real, str, arr, obj, Items, nil, cons, Fields, end, field, get, put,
  is_text, field_of,
}

-- `isinstance(item, dict) and item.get("type") == "reasoning"`
unfoldable pub is_reasoning : Json → Bool
is_reasoning v = is_text "reasoning" (field_of "type" v)

-- A text of the output, of which `strip` leaves something.
abbrev is_visible_text : (String → String) → Json → Bool
is_visible_text strip (str s) = not (strip s == "")
is_visible_text strip _ = false

unfoldable pub is_visible : (String → String) → Json → Bool
is_visible strip v =
    is_text "output_text" (field_of "type" v) && is_visible_text strip (field_of "text" v)

-- `item = dict(item); item["text"] = ""`
abbrev pub blanked : Json → Json
blanked (obj fs) = obj (put "text" (str "") fs)
blanked v = v

-- The items with every visible text but the last blanked, and whether there is one.
unfoldable pub collapse : (String → String) → Items → Items × Bool
collapse strip nil = (nil, false)
collapse strip (cons v vs) =
    let (rest, found) = collapse strip vs in
    if is_visible strip v
    then (cons (if found then blanked v else v) rest, true)
    else (cons v rest, found)

abbrev pub collapse_leading_output_text_reasoning : (String → String) → Json → Json
collapse_leading_output_text_reasoning strip (arr vs) = arr (collapse strip vs).0
collapse_leading_output_text_reasoning strip v = v

abbrev pub is_list : Json → Bool
is_list (arr _) = true
is_list _ = false

module _ {S : Type 0} (fresh : S) (strip_delta : String → S → String × S)
    (strip_think_blocks strip : String → String) where
  abbrev strip_text : String → Option S → Json × Option S
  strip_text s none = (str (strip_think_blocks s), none)
  strip_text s (some stripper) = let (text, now) = strip_delta s stripper in (str text, some now)

  -- A text under `text` or `delta`; any other value is as it was stripped.
  abbrev pub strip_named : Json → Option S → Json × Option S → Json × Option S
  strip_named (str s) stripper stripped = strip_text s stripper
  strip_named _ stripper stripped = stripped

  -- A field's value, from the value, the stripper and the stripped value.
  unfoldable pub strip_child : String → Json → Option S → Json × Option S → Json × Option S
  strip_child key v stripper (w, now) =
      if key == "content" && is_list v
      then (collapse_leading_output_text_reasoning strip w, now)
      else if key == "text" || key == "delta"
      then strip_named v stripper (w, now)
      else (w, now)

  abbrev or_stripper : S → Option S → S
  or_stripper stripper none = stripper
  or_stripper stripper (some now) = now

  abbrev listed : Option S → Items × S → Json × Option S
  listed none (vs, now) = (arr vs, none)
  listed (some _) (vs, now) = (arr vs, some now)

  unfoldable mutual
    pub strip_text_fields : Json → Option S → Json × Option S
    strip_text_fields (arr vs) none = listed none (strip_items vs fresh)
    strip_text_fields (arr vs) (some stripper) = listed (some stripper) (strip_items vs stripper)
    strip_text_fields (obj fs) stripper = let (gs, now) = strip_fields fs stripper in (obj gs, now)
    strip_text_fields null stripper = (null, stripper)
    strip_text_fields (bool b) stripper = (bool b, stripper)
    strip_text_fields (int n) stripper = (int n, stripper)
    strip_text_fields (real m e) stripper = (real m e, stripper)
    strip_text_fields (str s) stripper = (str s, stripper)

    pub strip_items : Items → S → Items × S
    strip_items nil stripper = (nil, stripper)
    strip_items (cons v vs) stripper =
        let (w, now) = strip_text_fields v (some stripper) in
        let kept = is_reasoning v in
        let (rest, final) = strip_items vs (if kept then stripper else or_stripper stripper now) in
        (if kept then rest else cons w rest, final)

    pub strip_fields : Fields → Option S → Fields × Option S
    strip_fields end stripper = (end, stripper)
    strip_fields (field key v fs) stripper =
        let (w, now) = strip_child key v stripper (strip_text_fields v stripper) in
        let (rest, final) = strip_fields fs now in (field key w rest, final)
