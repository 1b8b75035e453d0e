-- ===== src/Stt/WsFrame/Decode/Stable.antt =====
-- More input never changes a verdict of stt_ws_frame_decode, except that of -EAGAIN.
use subtitle_overlay_fw.Base.{
  ℕ, zero, suc, ◌+◌, ◌/◌, ◌%◌, ◌≤◌, ◌<◌, ◌≡◌, refl, true, false, some, List, [], ◌∷◌, ◌++◌, arith,
  ltb, ◌==◌, length, length-append, get_or, drop, ok, err, einval, erange, eio, enobufs, eagain,
  eproto, emsgsize, Result, Bool-cases, inl, inr, ◌>>=◌,
}
use subtitle_overlay_fw.Stt.WsFrame.Decode.{
  Frame, be_loop, read_16bit, read_64bit, read_header, finish, decode_bytes, decode,
}

get_or-append : (xs ys : List ℕ) (i : ℕ) → i < length xs → get_or (xs ++ ys) i 0 ≡ get_or xs i 0
get_or-append [] ys i h = elim h [ ]
get_or-append (x ∷ xs) ys zero h = refl
get_or-append (x ∷ xs) ys (suc i) h = get_or-append xs ys i (omega arith)

drop-append_le : (n : ℕ) (xs ys : List ℕ) → n ≤ length xs → drop n (xs ++ ys) ≡ drop n xs ++ ys
drop-append_le zero xs ys h = refl
drop-append_le (suc n) [] ys h = elim h [ ]
drop-append_le (suc n) (x ∷ xs) ys h = drop-append_le n xs ys (omega arith)

be_loop-append :
    (n i : ℕ) (xs ys : List ℕ) (acc : ℕ)
    → 2 + i + n ≤ length xs
    → be_loop n i (xs ++ ys) acc ≡ be_loop n i xs acc
unfolding be_loop
be_loop-append zero i xs ys acc h = refl
be_loop-append (suc n) i xs ys acc h =
    rw (get_or-append xs ys (2 + i) (omega arith)) (be_loop-append n (i + 1) xs ys _ (omega arith))

-- What the verdict on a buffer says of the verdict on a longer one.
abbrev pub Extends : List ℕ → Result Frame → Result Frame → Type 0
Extends more (ok f) longer = longer ≡ ok (record f { payload = f.payload ++ more })
Extends more (err eagain) longer = Unit
Extends more (err e) longer = longer ≡ err e

abbrev HeaderExtends : Result (ℕ × ℕ) → Result (ℕ × ℕ) → ℕ → Type 0
HeaderExtends (ok h) longer size = (longer ≡ ok h) × (h.0 ≤ size)
HeaderExtends (err eagain) longer size = Unit
HeaderExtends (err e) longer size = longer ≡ err e

read_header-extends :
    (xs ys : List ℕ)
    → 2 ≤ length xs
    → HeaderExtends (read_header xs) (read_header (xs ++ ys)) (length xs)
unfolding read_header read_16bit read_64bit
read_header-extends xs ys h = ground (
  arith,
  length-append xs ys,
  get_or-append xs ys 1,
  get_or-append xs ys 2,
  get_or-append xs ys 3,
  be_loop-append 8 0 xs ys 0,
)

finish-Extends :
    (xs ys : List ℕ) (m header n : ℕ)
    → 2 ≤ length xs
    → header ≤ length xs
    → Extends ys (finish xs m header n) (finish (xs ++ ys) m header n)
unfolding finish
finish-Extends xs ys m header n h le =
    ground (arith, length-append xs ys, get_or-append xs ys 0, drop-append_le header xs ys)

bind-Extends :
    (xs ys : List ℕ) (m : ℕ) (h h' : Result (ℕ × ℕ))
    → 2 ≤ length xs
    → HeaderExtends h h' (length xs)
    → Extends ys
        (h >>= λ (p : ℕ × ℕ). finish xs m p.0 p.1)
        (h' >>= λ (p : ℕ × ℕ). finish (xs ++ ys) m p.0 p.1)
bind-Extends xs ys m (ok p) h' two e = rw e.0 (finish-Extends xs ys m p.0 p.1 two e.1)
bind-Extends xs ys m (err eagain) h' two e = tt
bind-Extends xs ys m (err einval) h' two e = rw e
bind-Extends xs ys m (err enobufs) h' two e = rw e
bind-Extends xs ys m (err eproto) h' two e = rw e
bind-Extends xs ys m (err emsgsize) h' two e = rw e
bind-Extends xs ys m (err erange) h' two e = rw e
bind-Extends xs ys m (err eio) h' two e = rw e

-- A frame that decodes, decodes to the same frame however much input is behind it, and a refusal
-- other than -EAGAIN stands whatever more arrives.
pub decode_stable :
    (bytes more : List ℕ) (max_payload : ℕ)
    → Extends more
        (decode (some bytes) max_payload true)
        (decode (some (bytes ++ more)) max_payload true)
unfolding decode decode_bytes
decode_stable bytes more m = elim (Bool-cases (ltb (length bytes) 2)) [
  | inl short ↦ rw short tt
  | inr long ↦
      let two : 2 ≤ length bytes = ground arith in
      let long' : ltb (length (bytes ++ more)) 2 ≡ false =
        ground (arith, length-append bytes more) in
      let first = get_or-append bytes more 0 (omega arith) in
      let second = get_or-append bytes more 1 (omega arith) in
      rw (long, long', first, second)
        (elim (Bool-cases (get_or bytes 0 0 / 16 % 8 == 0)) [
          | inr reserved ↦ rw reserved
          | inl plain ↦ elim (Bool-cases (get_or bytes 1 0 / 128 % 2 == 0)) [
            | inr masked ↦ rw (plain, masked)
            | inl bare ↦
                rw (plain, bare)
                  (bind-Extends bytes more m (read_header bytes) (read_header (bytes ++ more)) two
                    (read_header-extends bytes more two))
          ]
        ])
]
