-- ===== src/Weiroll/Pack.antt =====
-- A packed command is read back from its word.
use cow_rs.Base.{
  ◌^◌, ◌<◌, ◌≡◌, sym, ap, ◌∙◌, [], ◌++◌, drop, get_or, take-append, drop-append, drop-drop,
}
use cow_rs.Base.Bytes.{Bytes, be_bytes, from_be, length-be_bytes, from_be-be_bytes}
use cow_rs.Base.Words.{slice}
use cow_rs.Weiroll.{WeirollCommand, pack}
use cow_rs.Weiroll.Layout.{IsCommand}

-- The reader of a word, field by field.
abbrev pub unpack : Bytes → WeirollCommand
unpack word = record {
  flags = get_or word 0 0;
  value = get_or word 1 0;
  gas = from_be (slice 2 4 word);
  target = slice 4 24 word;
  selector = slice 24 28 word;
  in_out = slice 28 32 word;
}

-- A command with a target of 20 bytes, a selector and arguments of 4 and a gas below 2 ^ 16 is
-- given back by packing it and reading the fields of the word.
unpack-pack : (c : WeirollCommand) → IsCommand c → c.gas < 2 ^ 16 → unpack (pack c) ≡ c
unfolding pack
unpack-pack c h fits =
    let tail₃ : Bytes = c.in_out ++ [] in
    let tail₂ : Bytes = c.selector ++ tail₃ in
    let tail₁ : Bytes = c.target ++ tail₂ in
    let all : Bytes = be_bytes 2 c.gas ++ tail₁ in
    let d₁ : drop 2 all ≡ tail₁ =
      drop-append 2 (be_bytes 2 c.gas) tail₁ (length-be_bytes 2 c.gas) in
    let d₂ : drop 22 all ≡ tail₂ =
      sym (drop-drop 2 20 all) ∙ ap (drop 20) d₁ ∙ drop-append 20 c.target tail₂ h.target_width in
    let d₃ : drop 26 all ≡ tail₃ =
      sym (drop-drop 22 4 all) ∙ ap (drop 4) d₂ ∙ drop-append 4 c.selector tail₃ h.selector_width in
    rw (
      take-append 2 (be_bytes 2 c.gas) tail₁ (length-be_bytes 2 c.gas),
      from_be-be_bytes 2 c.gas fits,
      d₁,
      take-append 20 c.target tail₂ h.target_width,
      d₂,
      take-append 4 c.selector tail₃ h.selector_width,
      d₃,
      take-append 4 c.in_out [] h.in_out_width,
    )
