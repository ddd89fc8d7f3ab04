-- ===== src/Net/Ethernet/Build.antt =====
-- What the frame builder of src/net/ethernet.rs writes.
use mathlib.Core.List.{append-nil, append_assoc}
use an_os_in_rust.Base.{
  ℕ, ◌+◌, ◌-◌, ◌≤◌, ◌≡◌, refl, sym, ap, ◌∙◌, Option, List, [], ◌∷◌, ◌++◌, arith, length, drop,
  length-append, length-drop, take-append, Outcome, ok,
}
use an_os_in_rust.Base.Slices.{slice, slice_suffix, slice_prefix, write_at_end, drop_add}
use an_os_in_rust.Net.Ethernet.{
  Bytes, EtherType, ethertype_bytes, FrameBuilder, new, put_bytes, put_each, tag_bytes, put_payload,
  build,
}

-- A builder that has written `done`, with `room` left.
abbrev pub at : Bytes → Bytes → FrameBuilder
at done room = record { buf = done ++ room; pos = length done }

pub put_bytes-at :
    (bytes done room : Bytes)
    → length bytes ≤ length room
    → put_bytes bytes (at done room) ≡ ok (at (done ++ bytes) (drop (length bytes) room))
unfolding put_bytes
put_bytes-at bytes done room fits = rw (write_at_end (length done) bytes done room refl fits) (
    ap (λ n. ok (record { buf = (done ++ bytes) ++ drop (length bytes) room; pos = n }))
      (sym (length-append done bytes)))

put_each-at :
    (bytes done room : Bytes)
    → length bytes ≤ length room
    → put_each bytes (at done room) ≡ ok (at (done ++ bytes) (drop (length bytes) room))
unfolding put_each
put_each-at [] done room fits = ap (λ d. ok (at d room)) (sym (append-nil done))
put_each-at (x ∷ xs) done [] fits = absurd (omega arith)
put_each-at (x ∷ xs) done (y ∷ room) fits =
    rw (put_bytes-at (x ∷ []) done (y ∷ room) (omega arith)) (
      put_each-at xs (done ++ x ∷ []) room (omega arith)
      ∙ ap (λ d. ok (at d (drop (length xs) room))) (append_assoc done (x ∷ []) xs))

-- A writer that keeps the size of the buffer that it is lent, and stays in it.
pub record Writes (writer : Bytes → Outcome (Bytes × ℕ)) (room out : Bytes) : Type 0 where
  pub rest : Bytes
  pub returns : writer room ≡ ok (out ++ rest, length out)
  pub same_size : length out + length rest ≡ length room

put_payload-at :
    (writer : Bytes → Outcome (Bytes × ℕ)) (done room out : Bytes) (w : Writes writer room out)
    → put_payload writer (at done room) ≡ ok (done ++ out, done ++ (out ++ w.rest))
unfolding put_payload
put_payload-at writer done room out w =
    let whole = done ++ (out ++ w.rest) in
    rw
      (
        slice_suffix (length done) (length (done ++ room)) done room refl refl,
        w.returns,
        take-append done room,
      )
      (rw
        (ap (slice 0 (length done + length out)) (sym (append_assoc done out w.rest))
          ∙ slice_prefix (length done + length out) (done ++ out) w.rest
              (sym (length-append done out)))
        refl)

-- What stands before the payload.
unfoldable pub header : Bytes → Bytes → List (Option Bytes) → EtherType → Bytes
header dest src tags ethertype = ((dest ++ src) ++ tag_bytes tags) ++ ethertype_bytes ethertype

header_room :
    (dest src tagged kind buf : Bytes)
    → drop (length (((dest ++ src) ++ tagged) ++ kind)) buf
      ≡ drop (length kind) (drop (length tagged) (drop (length src) (drop (length dest) buf)))
header_room dest src tagged kind buf =
    ap (λ n. drop n buf)
      (length-append ((dest ++ src) ++ tagged) kind
        ∙ ap (λ (n : ℕ). n + length kind)
            (length-append (dest ++ src) tagged
              ∙ ap (λ (n : ℕ). n + length tagged) (length-append dest src)))
    ∙ drop_add (length dest + length src + length tagged) (length kind) buf
    ∙ ap (drop (length kind)) (
        drop_add (length dest + length src) (length tagged) buf
        ∙ ap (drop (length tagged)) (drop_add (length dest) (length src) buf))

header_length :
    (dest src tagged kind : Bytes)
    → length (((dest ++ src) ++ tagged) ++ kind)
      ≡ length dest + length src + length tagged + length kind
header_length dest src tagged kind = omega (
  arith,
  length-append ((dest ++ src) ++ tagged) kind,
  length-append (dest ++ src) tagged,
  length-append dest src,
)

-- In a buffer with room for the header, and with a writer that stays in the rest of the buffer, the
-- frame is the destination, the source, the tags that are given, the type and what the writer wrote, and the
-- frame is the front of the buffer.
pub build_lem :
    (buf dest src : Bytes) (tags : List (Option Bytes)) (ethertype : EtherType)
    (writer : Bytes → Outcome (Bytes × ℕ)) (out : Bytes)
    → length (header dest src tags ethertype) ≤ length buf
    → (w : Writes writer (drop (length (header dest src tags ethertype)) buf) out)
    → build buf dest src tags ethertype writer
      ≡ ok
          (header dest src tags ethertype ++ out, header dest src tags ethertype ++ (out ++ w.rest))
unfolding build new header
build_lem buf dest src tags ethertype writer out fits w =
    rw
      (
        put_bytes-at dest [] buf (omega (arith, size)),
        put_bytes-at src dest room1 (omega (arith, size, left1)),
        put_each-at tagged (dest ++ src) room2 (omega (arith, size, left1, left2)),
        put_bytes-at kind ((dest ++ src) ++ tagged) room3
            (omega (arith, size, left1, left2, left3)),
      )
      (put_payload-at writer (((dest ++ src) ++ tagged) ++ kind) (drop (length kind) room3) out w')
  where
    tagged : Bytes
    tagged = tag_bytes tags

    kind : Bytes
    kind = ethertype_bytes ethertype

    room1 : Bytes
    room1 = drop (length dest) buf

    room2 : Bytes
    room2 = drop (length src) room1

    room3 : Bytes
    room3 = drop (length tagged) room2

    size : length dest + length src + length tagged + length kind ≤ length buf
    size = rw (header_length dest src tagged kind) at fits

    left1 : length room1 ≡ length buf - length dest
    left1 = length-drop (length dest) buf

    left2 : length room2 ≡ length room1 - length src
    left2 = length-drop (length src) room1

    left3 : length room3 ≡ length room2 - length tagged
    left3 = length-drop (length tagged) room2

    same : drop (length (((dest ++ src) ++ tagged) ++ kind)) buf ≡ drop (length kind) room3
    same = header_room dest src tagged kind buf

    w' : Writes writer (drop (length kind) room3) out
    w' = record {
      rest = w.rest;
      returns = ap writer (sym same) ∙ w.returns;
      same_size = w.same_size ∙ ap length same;
    }
