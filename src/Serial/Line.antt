-- ===== src/Serial/Line.antt =====
-- The bytes that src/drivers/serial.rs puts on the line, and when it is done.
use mathlib.Core.List.{append_assoc, append-nil}
use an_os_in_rust.Base.{
  ℕ, zero, suc, ◌+◌, ◌≤◌, ◌<◌, ◌≡◌, refl, sym, ap, ◌∙◌, ◌==◌, if◌then◌else◌, true, false,
  Bool-cases, inl, inr, [], ◌∷◌, ◌++◌, arith, length, drop, ok, bit_and,
}
use an_os_in_rust.Base.Slices.{slice_back}
use an_os_in_rust.Net.Ethernet.{Bytes}
use an_os_in_rust.Ports.{Ports}
use an_os_in_rust.Serial.{Com, inb, outb, line_status, write_byte, write, write_all}

-- What is sent for a byte: a line feed has a carriage return in front.
abbrev pub sent_one : ℕ → Bytes
sent_one b = if b == 10 then 13 ∷ 10 ∷ [] else b ∷ []

unfoldable pub sent_for : Bytes → Bytes
sent_for [] = []
sent_for (b ∷ bs) = sent_one b ++ sent_for bs

-- The most rounds that may be waited for, where each byte keeps the port busy for `bound` rounds.
unfoldable pub budget : ℕ → Bytes → ℕ
budget bound [] = 0
budget bound (b ∷ bs) = suc bound + budget bound bs

-- A call that has something to send brings it nearer to its end.
abbrev at_least : Bytes → ℕ
at_least [] = 0
at_least (b ∷ bs) = 1

drop_one_more : (n b : ℕ) (bs : Bytes) → drop (n + 1) (b ∷ bs) ≡ drop n bs
drop_one_more n b bs = ap (λ k. drop k (b ∷ bs)) one_more
  where
    one_more : n + 1 ≡ suc n
    one_more = omega arith

module _ {W : Type 0} (ports : Ports W) where
  -- The device, which has a buffer of sixteen bytes: a status that says that it is ready says that the
  -- buffer is empty, and one that says that it is not brings it nearer to being ready. A byte that is
  -- written to its data register gets onto the line where the buffer has room, of which it takes a
  -- place; of a byte that is written to a full buffer nothing is said.
  pub record IsUart (c : Com) (line : W → Bytes) (room busy : W → ℕ) (bound : ℕ) : Type 0 where
    pub status :
        (w : W)
        → (s : ℕ) × (w' : W) × (inb ports c 5 w ≡ ok (s, w'))
          × (line w' ≡ line w)
          × ((bit_and s 0b100000 == 0b100000) ≡ true → 16 ≤ room w')
          × ((bit_and s 0b100000 == 0b100000) ≡ false → busy w' < busy w)
    pub data_sent :
        (byte : ℕ) (w : W)
        → 0 < room w
        → (w' : W) × (outb ports c 0 byte w ≡ ok w')
          × (line w' ≡ line w ++ byte ∷ [])
          × (room w ≤ room w' + 1)
          × (busy w' ≤ bound)

  module _ (c : Com) (line : W → Bytes) (room busy : W → ℕ) (bound : ℕ)
      (u : IsUart c line room busy bound) where
    write_byte-sent :
        (b : ℕ) (w : W)
        → 2 ≤ room w
        → (w' : W) × (write_byte ports c b w ≡ ok w')
          × (line w' ≡ line w ++ sent_one b)
          × (busy w' ≤ bound)
    unfolding write_byte
    write_byte-sent b w free = elim (Bool-cases (b == 10)) [
      | inl is_feed ↦
          let (w1, e1, l1, less, _) = u.data_sent 13 w (omega (arith, free)) in
          let (w2, e2, l2, _, q) = u.data_sent 10 w1 (omega (arith, free, less)) in
          (
            w2,
            rw (is_feed, e1) e2,
            rw (is_feed)
                (l2 ∙ ap (λ l. l ++ 10 ∷ []) l1 ∙ append_assoc (line w) (13 ∷ []) (10 ∷ [])),
            q,
          )
      | inr plain ↦
          let (w1, e1, l1, _, q) = u.data_sent b w (omega (arith, free)) in
          (w1, rw (plain) e1, rw (plain) l1, q)
    ]

    -- A call of `write` sends some of the bytes from the front, and what is left takes no longer.
    write-sent :
        (bs : Bytes) (w : W)
        → (n : ℕ) × (w' : W) × (write ports c bs w ≡ ok (n, w'))
          × (n ≤ length bs)
          × (line w' ++ sent_for (drop n bs) ≡ line w ++ sent_for bs)
          × (busy w' + budget bound (drop n bs) + at_least bs ≤ busy w + budget bound bs)
    unfolding write line_status sent_for budget
    write-sent [] w = (0, w, refl, omega arith, refl, omega arith)
    write-sent (b ∷ bs) w =
        let (s, w1, e1, l1, free, nearer) = u.status w in
        elim (Bool-cases (bit_and s 0b100000 == 0b100000)) [
          | inl is_ready ↦
              let (w2, e2, l2, q) = write_byte-sent b w1 (omega (arith, free is_ready)) in
              let (n, w3, e3, few, l3, m) = write-sent bs w2 in
              (
                n + 1,
                w3,
                rw (e1, is_ready, e2, e3) refl,
                omega (arith, few),
                rw (drop_one_more n b bs) (
                    l3
                    ∙ ap (λ l. l ++ sent_for bs) (l2 ∙ ap (λ l. l ++ sent_one b) l1)
                    ∙ append_assoc (line w) (sent_one b) (sent_for bs)),
                rw (drop_one_more n b bs) (omega (arith, m, q)),
              )
          | inr not_ready ↦ (
            0,
            w1,
            rw (e1, not_ready) refl,
            omega arith,
            ap (λ l. l ++ sent_for (b ∷ bs)) l1,
            omega (arith, nearer not_ready),
          )
        ]

    -- At a device that takes sixteen bytes where it says that it is ready, with more fuel than the port is
    -- busy now and can be for each byte of the buffer: `write_all` returns, and has put the bytes of the buffer on the line, in order, each line feed behind a
    -- carriage return.
    pub write_all-sent :
        (fuel : ℕ) (bs : Bytes) (w : W)
        → busy w + budget bound bs < fuel
        → (w' : W) × (write_all ports fuel c bs w ≡ ok w') × (line w' ≡ line w ++ sent_for bs)
    unfolding write_all sent_for
    write_all-sent zero bs w enough = absurd (omega (arith, enough))
    write_all-sent (suc fuel) [] w enough = (w, refl, sym (append-nil (line w)))
    write_all-sent (suc fuel) (b ∷ bs) w enough =
        let (n, w1, e1, few, l1, m) = write-sent (b ∷ bs) w in
        let (w2, e2, l2) = write_all-sent fuel (drop n (b ∷ bs)) w1 (omega (arith, m, enough)) in
        (w2, rw (e1, slice_back n (b ∷ bs) few) e2, l2 ∙ l1)
