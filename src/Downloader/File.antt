-- ===== src/Downloader/File.antt =====
-- crates/ddm-core/src/storage/writer.rs: `write_at` on the temp file. A file is the byte at each
-- offset; what the operating system's write returns is given with each call.
use debian_download_manager.Prelude.{
  ℕ, zero, suc, ◌+◌, ◌≤◌, ◌<◌, ◌≡◌, refl, ap, ◌∙◌, Bool-cases, inl, inr, ==→eq, ◌&&◌, ltb, leb, ◌-◌,
  List, [], ◌∷◌, ◌++◌, Option, none, some, ◌==◌, if◌then◌else◌, arith, length, get_elem?, take,
}
use debian_download_manager.Prelude.Result.{Result, ok, err}

abbrev pub File : Type 0
File = ℕ → ℕ

pub data StorageError : Type 0 where
  io_failed : StorageError
  short_write : ℕ → ℕ → StorageError

unfoldable pub put_bytes : ℕ → List ℕ → File → File
put_bytes offset [] file x = file x
put_bytes offset (b ∷ bytes) file x = if x == offset then b else put_bytes (offset + 1) bytes file x

-- `written` is the number of bytes that the system wrote, `none` where it failed.
unfoldable pub write_at : ℕ → List ℕ → Option ℕ → File → Result StorageError Unit × File
write_at offset bytes none file = (err io_failed, file)
write_at offset bytes (some n) file = (
  if n == length bytes then ok tt else err (short_write n (length bytes)),
  put_bytes offset (take n bytes) file,
)

pub put_bytes-before :
    (offset : ℕ) (bytes : List ℕ) (file : File) (x : ℕ)
    → x < offset
    → put_bytes offset bytes file x ≡ file x
unfolding put_bytes
put_bytes-before offset [] file x h = refl
put_bytes-before offset (b ∷ bytes) file x h =
    ground (arith, put_bytes-before (offset + 1) bytes file x)

pub put_bytes-after :
    (offset : ℕ) (bytes : List ℕ) (file : File) (x : ℕ)
    → offset + length bytes ≤ x
    → put_bytes offset bytes file x ≡ file x
unfolding put_bytes
put_bytes-after offset [] file x h = refl
put_bytes-after offset (b ∷ bytes) file x h =
    ground (arith, put_bytes-after (offset + 1) bytes file x)

pub put_bytes-get :
    (offset : ℕ) (bytes : List ℕ) (file : File) (i b : ℕ)
    → get_elem? bytes i ≡ some b
    → put_bytes offset bytes file (offset + i) ≡ b
unfolding put_bytes
put_bytes-get offset [] file i b e = absurd (cc e)
put_bytes-get offset (c ∷ bytes) file zero b e = ground arith
put_bytes-get offset (c ∷ bytes) file (suc i) b e =
    let rest = put_bytes-get (offset + 1) bytes file i b e in ground (arith, rest)

pub put_bytes-cong :
    (offset : ℕ) (bytes : List ℕ) (f g : File) (x : ℕ)
    → f x ≡ g x
    → put_bytes offset bytes f x ≡ put_bytes offset bytes g x
unfolding put_bytes
put_bytes-cong offset [] f g x e = e
put_bytes-cong offset (b ∷ bytes) f g x e =
    ground (arith, put_bytes-cong (offset + 1) bytes f g x e)

-- Two writes in a row are one write.
pub put_bytes-append :
    (offset next : ℕ) (xs ys : List ℕ) (file : File) (x : ℕ)
    → next ≡ offset + length xs
    → put_bytes next ys (put_bytes offset xs file) x ≡ put_bytes offset (xs ++ ys) file x
unfolding put_bytes
put_bytes-append offset next [] ys file x e =
    let same : next ≡ offset = omega arith in ap (λ n. put_bytes n ys file x) same
put_bytes-append offset next (b ∷ xs) ys file x e = elim (Bool-cases (x == offset)) [
  | inl here ↦
      let at : x ≡ offset = ==→eq x offset here in
      put_bytes-before next ys (put_bytes offset (b ∷ xs) file) x (omega arith) ∙ rw here
  | inr later ↦
      put_bytes-cong next ys (put_bytes offset (b ∷ xs) file) (put_bytes (offset + 1) xs file) x
        (rw later)
      ∙ put_bytes-append (offset + 1) next xs ys file x (omega arith)
      ∙ rw later
]

-- The byte at a place of a list, 0 beyond it.
abbrev pub byte_at : List ℕ → ℕ → ℕ
byte_at [] i = 0
byte_at (b ∷ bytes) zero = b
byte_at (b ∷ bytes) (suc i) = byte_at bytes i

-- A file after a write, byte for byte.
pub put_bytes-value :
    (offset : ℕ) (bytes : List ℕ) (file : File) (x : ℕ)
    → put_bytes offset bytes file x ≡ (
        if leb offset x && ltb x (offset + length bytes)
        then byte_at bytes (x - offset)
        else file x)
unfolding put_bytes
put_bytes-value offset [] file x = ground arith
put_bytes-value offset (b ∷ bytes) file x = elim (Bool-cases (x == offset)) [
  | inl here ↦ let at : x - offset ≡ 0 = ground arith in rw (here, at, put_bytes) (ground arith)
  | inr later ↦
      let ih = put_bytes-value (offset + 1) bytes file x in
      elim (Bool-cases (leb offset x)) [
        | inr below ↦ rw (later, below, put_bytes) (ground (arith, ih))
        | inl above ↦
            let at : x - offset ≡ suc (x - (offset + 1)) = ground arith in
            rw (later, above, at, put_bytes) (ground (arith, ih))
      ]
]
