-- ===== src/Net/Interface/Ring.antt =====
-- The ring of buffers of src/net/mod.rs.
use an_os_in_rust.Base.{
  ℕ, zero, suc, ◌+◌, ◌%◌, ◌≤◌, ◌<◌, ◌≡◌, refl, sym, ap, subst, ◌∙◌, ◌≢◌, Option, none, some, List,
  [], ◌∷◌, ◌++◌, arith, length, set, take, get_elem?, length-set, get_elem?-set_self,
  get_elem?-set_ne, get_elem?-lt, ok, false, ◌==◌, Bool-cases, inl, inr, drop, length-append,
  length-drop, take-append,
}
use an_os_in_rust.Base.Slices.{write_at_end, slice_front}
use an_os_in_rust.Net.Ethernet.{Bytes}
use an_os_in_rust.Net.Interface.{RxBuf, Interface, next_slot, store, fetch}

-- What a reader of a buffer gets.
unfoldable pub contents : Option RxBuf → Bytes
contents none = []
contents (some buf) = take buf.len buf.bytes

-- The frames in `n` buffers from slot `t` on.
unfoldable pub queued : ℕ → ℕ → List RxBuf → List Bytes
queued zero t bufs = []
queued (suc n) t bufs = contents (get_elem? bufs t) ∷ queued n (next_slot t) bufs

-- The frames that wait in an interface.
unfoldable pub frames : Interface → List Bytes
frames i = queued i.recv_full.count i.recv_tail i.bufs

-- Every buffer has its size and a frame that fits.
pub record IsSized (bufs : List RxBuf) : Type 0 where
  pub four : length bufs ≡ 4
  pub each :
      (n : ℕ) (buf : RxBuf)
      → get_elem? bufs n ≡ some buf
      → (length buf.bytes ≡ 1526) × (buf.len ≤ 1526)

-- Between the calls of the two tasks: each buffer is empty or full, the head is as far in front of
-- the tail as there are full ones, and no task waits for an empty one.
pub record IsRing (i : Interface) : Type 0 where
  pub empty_max : i.recv_empty.max ≡ 4
  pub full_max : i.recv_full.max ≡ 4
  pub tokens : i.recv_empty.count + i.recv_full.count ≡ 4
  pub nobody_waits : i.recv_empty.waiting ≡ []
  pub nobody_releases : i.recv_empty.releasing ≡ []
  pub nobody_fills : i.recv_full.releasing ≡ []
  pub tail_lt : i.recv_tail < 4
  pub head_ahead : i.recv_head ≡ (i.recv_tail + i.recv_full.count) % 4
  pub sized : IsSized i.bufs

-- A write behind the full buffers changes none of them.
pub queued-set :
    (n t h : ℕ) (buf : RxBuf) (bufs : List RxBuf)
    → t < 4
    → n < 4
    → h ≡ (t + n) % 4
    → queued n t (set bufs h buf) ≡ queued n t bufs
unfolding queued next_slot
queued-set zero t h buf bufs low room e = refl
queued-set (suc n) t h buf bufs low room e =
    rw
      (
        get_elem?-set_ne bufs h t buf (λ same. omega (arith, e, same)),
        queued-set n ((t + 1) % 4) h buf bufs (omega arith) (omega arith) (omega (arith, e)),
      )
      refl

pub queued-snoc :
    (n t h : ℕ) (bufs : List RxBuf)
    → t < 4
    → h ≡ (t + n) % 4
    → queued (suc n) t bufs ≡ queued n t bufs ++ contents (get_elem? bufs h) ∷ []
unfolding queued next_slot
queued-snoc zero t h bufs low e =
    ap (λ slot. contents (get_elem? bufs slot) ∷ []) (omega (arith, e))
queued-snoc (suc n) t h bufs low e =
    ap (◌∷◌ (contents (get_elem? bufs t)))
      (queued-snoc n ((t + 1) % 4) h bufs (omega arith) (omega (arith, e)))

pub set-IsSized :
    (bufs : List RxBuf) (h : ℕ) (buf : RxBuf)
    → IsSized bufs
    → h < 4
    → length buf.bytes ≡ 1526
    → buf.len ≤ 1526
    → IsSized (set bufs h buf)
set-IsSized bufs h buf v low size fits = record {
  four = length-set bufs h buf ∙ v.four;
  each = λ n other here. elim (Bool-cases (h == n)) [
    | inl e ↦
        let same : some buf ≡ some other =
          sym (get_elem?-set_self bufs h buf (omega (arith, v.four)))
          ∙ ap (get_elem? (set bufs h buf)) (ground (arith, e))
          ∙ here in
        subst (λ b. (length b.bytes ≡ 1526) × (b.len ≤ 1526)) (some_injective same) (size, fits)
    | inr e ↦ v.each n other (sym (get_elem?-set_ne bufs h n buf (differ h n e)) ∙ here)
  ];
}
  where
    differ : (a b : ℕ) → (a == b) ≡ false → a ≢ b
    differ a b e = ground (arith, e)

    some_injective : {x y : RxBuf} → some x ≡ some y → x ≡ y
    some_injective e = cc

-- A frame that fits is what a reader of the buffer at the head gets afterwards.
pub store-contents :
    (bytes : Bytes) (i : Interface)
    → IsSized i.bufs
    → i.recv_head < 4
    → length bytes ≤ 1526
    → (buf : RxBuf) × (store bytes i
        ≡ ok (record i { recv_head = next_slot i.recv_head; bufs = set i.bufs i.recv_head buf }))
      × (length buf.bytes ≡ 1526)
      × (buf.len ≤ 1526)
      × (contents (some buf) ≡ bytes)
unfolding store contents
store-contents bytes i v low fits =
    let (old, here) = get_elem?-lt i.bufs i.recv_head (omega (arith, v.four)) in
    let (size, _) = v.each i.recv_head old here in
    (
      record { bytes = bytes ++ drop (length bytes) old.bytes; len = length bytes },
      rw (here, write_at_end 0 bytes [] old.bytes refl (omega (arith, size))) refl,
      omega (
        arith,
        length-append bytes (drop (length bytes) old.bytes),
        length-drop (length bytes) old.bytes,
        size,
      ),
      fits,
      take-append bytes (drop (length bytes) old.bytes),
    )

-- A reader gets the frame of the buffer at the tail.
pub fetch-contents :
    (i : Interface)
    → IsSized i.bufs
    → i.recv_tail < 4
    → fetch i
      ≡ ok (contents (get_elem? i.bufs i.recv_tail), record i { recv_tail = next_slot i.recv_tail })
unfolding fetch contents
fetch-contents i v low =
    let (buf, here) = get_elem?-lt i.bufs i.recv_tail (omega (arith, v.four)) in
    let (size, fits) = v.each i.recv_tail buf here in
    rw (here, slice_front buf.len buf.bytes (omega (arith, size, fits))) refl
