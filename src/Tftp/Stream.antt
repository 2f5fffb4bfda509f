-- ===== src/Tftp/Stream.antt =====
-- The C library's files as far as tftpsubs.c uses them: `getc` and `read` on a file open for
-- reading, `putc`, `write` and `fseek(file, -1, SEEK_CUR)` on one open for writing.
use baseliner_docker.Base.{
  ℕ, List, [], ◌∷◌, Option, none, some, Bool, ℤ, pos, negsuc, length, take, drop, if◌then◌else◌,
}

-- A file open for reading: the bytes not yet read, and whether the device fails.
pub record Source : Type 0 where
  pub rest : List ℕ
  pub broken : Bool

-- `getc`; `none` is EOF, at the end of the file or on an error.
abbrev next_byte : List ℕ → Source → Option (ℕ × Source)
next_byte [] f = none
next_byte (c ∷ r) f = some (c, record f { rest = r })

unfoldable pub getc : Source → Option (ℕ × Source)
getc f = if f.broken then none else next_byte f.rest f

-- `read(fd, buf, n)`: the count or -1, the bytes, and the file behind them.
unfoldable pub read : ℕ → Source → ℤ × List ℕ × Source
read n f =
    if f.broken
    then (negsuc 0, [], f)
    else (pos (length (take n f.rest)), take n f.rest, record f { rest = drop n f.rest })

-- A file open for writing: the bytes before the position, last first, those behind it, and whether
-- the device fails.
pub record Sink : Type 0 where
  pub before : List ℕ
  pub after : List ℕ
  pub full : Bool

-- `putc` overwrites the byte at the position, or extends the file.
unfoldable pub putc : ℕ → Sink → Sink
putc c f = if f.full then f else record f { before = c ∷ f.before; after = drop 1 f.after }

-- `fseek(file, -1, SEEK_CUR)`; before the first byte it fails and moves nothing.
abbrev back_over : List ℕ → Sink → Sink
back_over [] f = f
back_over (c ∷ r) f = record f { before = r; after = c ∷ f.after }

unfoldable pub seek_back : Sink → Sink
seek_back f = back_over f.before f

-- `write(fd, buf, n)`: each byte as `putc` puts it, or -1.
unfoldable pub put_bytes : List ℕ → Sink → Sink
unfolding putc
put_bytes [] f = f
put_bytes (c ∷ r) f = put_bytes r (putc c f)

unfoldable pub write : List ℕ → Sink → ℤ × Sink
unfolding put_bytes
write bytes f = if f.full then (negsuc 0, f) else (pos (length bytes), put_bytes bytes f)
