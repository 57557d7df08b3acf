-- ===== src/Mcp/Engine/Logs.antt =====
-- The loop that takes a container's log apart (mcp-server/diagnostics.go): frames of an eight-byte
-- header, whose last four bytes give the size, and a payload. Bytes are numbers below 256.
use velo_infra_playground.Prelude.{
  ℕ, suc, ◌+◌, ◌-◌, ◌*◌, ◌/◌, ◌%◌, ◌^◌, ◌≤◌, ◌<◌, ◌≡◌, refl, sym, ap, ◌∙◌, List, [], ◌∷◌, ◌++◌,
  none, some, length, get_elem?, All, arith,
}

-- What a call of `Read` gives: bytes, no more than were asked for, or an error, such as the end.
pub data Answer : Type 0 where
  bytes : List ℕ → Answer
  failed : Answer

unfoldable pub zeros : ℕ → List ℕ
zeros ℕ.zero = []
zeros (ℕ.suc n) = 0 ∷ zeros n

-- The slice after a `Read` that gave these bytes.
unfoldable pub fill : List ℕ → List ℕ → List ℕ
fill [] slice = slice
fill (b ∷ bs) [] = []
fill (b ∷ bs) (x ∷ slice) = b ∷ fill bs slice

unfoldable pub byte_at : List ℕ → ℕ → ℕ
byte_at bs i = elim (get_elem? bs i) [ none ↦ 0 | some b ↦ b ]

-- The size in a header.
unfoldable pub payload_size : List ℕ → ℕ
unfolding byte_at
payload_size hdr =
    byte_at hdr 4 * 2 ^ 24 + byte_at hdr 5 * 2 ^ 16 + byte_at hdr 6 * 2 ^ 8 + byte_at hdr 7

-- The loop, with the header's slice, which it does not clear. It ends at the first error, and a
-- log whose answers are over gives no more than an error.
unfoldable pub read_frames : List ℕ → List Answer → List ℕ
unfolding zeros fill payload_size
read_frames hdr [] = []
read_frames hdr (failed ∷ answers) = []
read_frames hdr (bytes given ∷ []) = []
read_frames hdr (bytes given ∷ failed ∷ answers) = []
read_frames hdr (bytes given ∷ bytes content ∷ answers) =
    let filled = fill given hdr in
    fill content (zeros (payload_size filled)) ++ read_frames filled answers

unfoldable pub demultiplex : List Answer → List ℕ
unfolding read_frames
demultiplex answers = read_frames (zeros 8) answers

-- A frame of the log, with the part of its payload that the `Read` for it gives.
pub record Frame : Type 0 where
  pub stream : ℕ
  pub size : ℕ
  pub content : List ℕ

-- Its header as the daemon writes it: the stream, and the size in big-endian order.
abbrev pub header : Frame → List ℕ
header f =
    f.stream
    ∷ 0
    ∷ 0
    ∷ 0
    ∷ f.size / 2 ^ 24 % 256
    ∷ f.size / 2 ^ 16 % 256
    ∷ f.size / 2 ^ 8 % 256
    ∷ f.size % 256
    ∷ []

abbrev pub answers_of : List Frame → List Answer
answers_of [] = []
answers_of (f ∷ fs) = bytes (header f) ∷ bytes f.content ∷ answers_of fs

-- The content, filled up with zero bytes to the size.
abbrev pub padded : Frame → List ℕ
padded f = f.content ++ zeros (f.size - length f.content)

abbrev pub joined : {A : Type 0} → (A → List ℕ) → List A → List ℕ
joined f [] = []
joined f (x ∷ xs) = f x ++ joined f xs

fill-all : (bs slice : List ℕ) → length bs ≡ length slice → fill bs slice ≡ bs
unfolding fill
fill-all [] [] h = refl
fill-all [] (x ∷ slice) h = absurd (omega arith)
fill-all (b ∷ bs) [] h = absurd (omega arith)
fill-all (b ∷ bs) (x ∷ slice) h = ap (λ r. b ∷ r) (fill-all bs slice (omega arith))

fill-zeros : (bs : List ℕ) (n : ℕ) → length bs ≤ n → fill bs (zeros n) ≡ bs ++ zeros (n - length bs)
unfolding fill zeros
fill-zeros [] n h = ap zeros (omega arith)
fill-zeros (b ∷ bs) ℕ.zero h = absurd (omega arith)
fill-zeros (b ∷ bs) (ℕ.suc n) h =
    ap (λ r. b ∷ r)
      (fill-zeros bs n (omega arith)
        ∙ ap (λ k. bs ++ zeros k) {x = n - length bs} {y = suc n - suc (length bs)} (omega arith))

payload_size-header : (f : Frame) → f.size < 2 ^ 32 → payload_size (header f) ≡ f.size
unfolding payload_size byte_at
payload_size-header f h = omega arith

read_frames-answers_of :
    (hdr : List ℕ) (fs : List Frame)
    → length hdr ≡ 8
    → All (λ f. (f.size < 2 ^ 32) × (length f.content ≤ f.size)) fs
    → read_frames hdr (answers_of fs) ≡ joined padded fs
unfolding read_frames
read_frames-answers_of hdr [] eight h = refl
read_frames-answers_of hdr (f ∷ fs) eight ((fits, within), h) =
    rw (fill-all (header f) hdr (sym eight), read_frames)
      (rw (payload_size-header f fits, fill-zeros f.content f.size within)
        (ap (λ r. padded f ++ r) (read_frames-answers_of (header f) fs refl h)))

-- A log of frames whose headers arrive whole comes out frame by frame: of each payload what its one
-- `Read` gave, filled up with zero bytes to the size that its header promised, for sizes of 32 bits.
pub demultiplex-answers_of :
    (frames : List Frame)
    → All (λ f. (f.size < 2 ^ 32) × (length f.content ≤ f.size)) frames
    → demultiplex (answers_of frames) ≡ joined padded frames
unfolding demultiplex zeros
demultiplex-answers_of frames h = read_frames-answers_of (zeros 8) frames refl h
