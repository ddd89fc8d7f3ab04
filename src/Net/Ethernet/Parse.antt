-- ===== src/Net/Ethernet/Parse.antt =====
-- What the accessors of `Frame` in src/net/ethernet.rs read from a frame, and that they read back
-- what the builder was given.
use mathlib.Core.List.{append_assoc}
use an_os_in_rust.Base.{
  ◌≡◌, refl, sym, ap, ◌∙◌, false, ◌&&◌, Option, none, some, List, [], ◌∷◌, ◌++◌, arith, ◌==◌,
  length, get_or, length-append, ok, Bool-cases, inl, inr, >>=-eq-ok, ok_injective,
}
use an_os_in_rust.Base.Slices.{slice, slice_middle, slice_suffix, slice_prefix}
use an_os_in_rust.Net.Ethernet.{
  Bytes, EtherType, arp, other, ethertype_bytes, is_tag, dest, src, after_addresses, ethertype_from,
  ethertype, classify, payload_from, payload_with_crc, tag_bytes, vlan_tags_from, vlan_tags,
}
use an_os_in_rust.Net.Ethernet.Build.{header}

-- Tags are two bytes long.
abbrev pub AreTags : List (Option Bytes) → Type 0
AreTags [] = Unit {0}
AreTags (none ∷ tags) = AreTags tags
AreTags (some tag ∷ tags) = (length tag ≡ 2) × AreTags tags

-- A type that is neither a VLAN tag nor another spelling of that of ARP.
abbrev pub IsPlain : EtherType → Type 0
IsPlain arp = Unit {0}
IsPlain (other a b) = (is_tag a b ≡ false) × ((a == 0x8 && b == 0x6) ≡ false)

ethertype_from-tags :
    (tags : List (Option Bytes)) (kind : EtherType) (payload : Bytes)
    → AreTags tags
    → IsPlain kind
    → (ethertype_from (tag_bytes tags ++ (ethertype_bytes kind ++ payload)) ≡ ok kind)
      × (payload_from (tag_bytes tags ++ (ethertype_bytes kind ++ payload)) ≡ ok payload)
unfolding ethertype_from payload_from tag_bytes ethertype_bytes classify
ethertype_from-tags [] arp [] t p = (refl, refl)
ethertype_from-tags [] arp (x ∷ []) t p = (refl, refl)
ethertype_from-tags [] arp (x ∷ y ∷ rest) t p = (refl, refl)
ethertype_from-tags [] (other a b) [] t p = (rw (p.0, p.1) refl, rw p.0 refl)
ethertype_from-tags [] (other a b) (x ∷ []) t p = (rw (p.0, p.1) refl, rw p.0 refl)
ethertype_from-tags [] (other a b) (x ∷ y ∷ rest) t p = (rw (p.0, p.1) refl, rw p.0 refl)
ethertype_from-tags (none ∷ tags) kind payload t p = ethertype_from-tags tags kind payload t p
ethertype_from-tags (some [] ∷ tags) kind payload t p = absurd (omega arith)
ethertype_from-tags (some (a ∷ []) ∷ tags) kind payload t p = absurd (omega arith)
ethertype_from-tags (some (a ∷ b ∷ []) ∷ tags) kind payload t p =
    ethertype_from-tags tags kind payload t.1 p
ethertype_from-tags (some (a ∷ b ∷ c ∷ tag) ∷ tags) kind payload t p = absurd (omega arith)

-- A frame with addresses of six bytes, tags of two and a plain type gives back its destination, its source, its type
-- and what follows, however many tags it has.
pub parse-header :
    (to from : Bytes) (tags : List (Option Bytes)) (kind : EtherType) (rest : Bytes)
    → length to ≡ 6
    → length from ≡ 6
    → AreTags tags
    → IsPlain kind
    → (dest (header to from tags kind ++ rest) ≡ ok to)
      × (src (header to from tags kind ++ rest) ≡ ok from)
      × (ethertype (header to from tags kind ++ rest) ≡ ok kind)
      × (payload_with_crc (header to from tags kind ++ rest) ≡ ok rest)
unfolding dest src ethertype payload_with_crc after_addresses header
parse-header to from tags kind rest six six' t p =
    rw (shape to from (tag_bytes tags) (ethertype_bytes kind) rest) (
      slice_prefix 6 to _ (sym six),
      slice_middle 6 12 to from _ (sym six) (omega arith),
      rw inner parsed.0,
      rw inner parsed.1,
    )
  where
    shape : (a b c d e : Bytes) → (((a ++ b) ++ c) ++ d) ++ e ≡ a ++ (b ++ (c ++ (d ++ e)))
    shape a b c d e = simp append_assoc

    tail : Bytes
    tail = tag_bytes tags ++ (ethertype_bytes kind ++ rest)

    parsed : (ethertype_from tail ≡ ok kind) × (payload_from tail ≡ ok rest)
    parsed = ethertype_from-tags tags kind rest t p

    inner : slice 12 (length (to ++ (from ++ tail))) (to ++ (from ++ tail)) ≡ ok tail
    inner =
        ap (λ xs. slice 12 (length xs) xs) (sym (append_assoc to from tail))
        ∙ slice_suffix 12 _ (to ++ from) tail (omega (arith, length-append to from)) refl

-- `vlan_tags` of the first of two stacked tags: the second is never read.
vlan_tags_from-second :
    (bytes : Bytes) (first : Option Bytes) (out : List (Option Bytes))
    → vlan_tags_from 0 (first ∷ none ∷ []) bytes ≡ ok out
    → get_or out 1 none ≡ none
unfolding vlan_tags_from
vlan_tags_from-second [] first out h = cc
vlan_tags_from-second (a ∷ []) first out h = cc
vlan_tags_from-second (a ∷ b ∷ rest) first out h = elim (Bool-cases (is_tag a b)) [
  | inr plain ↦ ap (λ o. get_or o 1 none) (sym (ok_injective (rw plain at h)))
  | inl tag ↦
      let (t, _, more) = >>=-eq-ok (slice 0 2 rest) _ (rw tag at h) in
      vlan_tags_from-second rest (some t) out more
]

-- `vlan_tags` never reports a second tag, whatever the frame.
vlan_tags_second :
    (frame : Bytes) (out : List (Option Bytes))
    → vlan_tags frame ≡ ok out
    → get_or out 1 none ≡ none
unfolding vlan_tags
vlan_tags_second frame out h =
    let (bytes, _, more) = >>=-eq-ok (after_addresses frame) _ h in
    vlan_tags_from-second bytes none out more
