-- ===== src/Strings.antt =====
-- src/lib/string.c: blocks of bytes and null-terminated strings in the kernel's memory.
-- A pointer is its address, and the memory a function from addresses to bytes. A loop up to a
-- null byte runs on fuel: `none` is a failed `ASSERT` or a string that goes on past the fuel. A
-- pointer that can be null is `null`.
pub mod Blocks
pub mod Lengths
pub mod Copies
use cs.Common.{
  ℕ, zero, suc, ◌+◌, ◌-◌, ◌%◌, Bool, true, false, not, ◌&&◌, ◌||◌, Option, none, some, ltb, leb,
  ◌==◌, if◌then◌else◌, ◌>>=◌, ◌>>◌, assert, update, null,
}
use cs.Common.Int.{ℤ, pos, negsuc}

abbrev pub Memory : Type 0
Memory = ℕ → ℕ

-- `p != NULL || size == 0`.
abbrev pub usable : ℕ → ℕ → Bool
usable p size = not (p == null) || (size == 0)

-- `while (size-- > 0) *dst++ = *src++`, and the final memory.
unfoldable pub copy_up : ℕ → Memory → ℕ → ℕ → Memory
copy_up zero m dst src = m
copy_up (suc size) m dst src = copy_up size (update m dst (m src)) (suc dst) (suc src)

unfoldable pub memcpy : Memory → ℕ → ℕ → ℕ → Option (ℕ × Memory)
memcpy m dst src size =
    assert (usable dst size) >> (assert (usable src size) >> some (dst, copy_up size m dst src))

-- `while (size-- > 0) *--dst = *--src`, from the two ends.
unfoldable pub copy_down : ℕ → Memory → ℕ → ℕ → Memory
copy_down zero m dst src = m
copy_down (suc size) m dst src = copy_down size (update m (dst + size) (m (src + size))) dst src

-- `dst` has moved to the end of the block in the first case, and back to its start in the second.
unfoldable pub memmove : Memory → ℕ → ℕ → ℕ → Option (ℕ × Memory)
memmove m dst src size =
    assert (usable dst size)
    >> (assert (usable src size)
        >> (if ltb dst src
            then some (dst + size, copy_up size m dst src)
            else some (dst, copy_down size m dst src)))

unfoldable pub compare_loop : ℕ → Memory → ℕ → ℕ → ℤ
compare_loop zero m a b = pos 0
compare_loop (suc size) m a b =
    let rest = compare_loop size m (suc a) (suc b) in
    if m a == m b then rest else if ltb (m b) (m a) then pos 1 else negsuc 0

unfoldable pub memcmp : Memory → ℕ → ℕ → ℕ → Option ℤ
memcmp m a b size =
    assert (usable a size) >> (assert (usable b size) >> some (compare_loop size m a b))

unfoldable pub strcmp_loop : ℕ → Memory → ℕ → ℕ → Option ℤ
strcmp_loop zero m a b = none
strcmp_loop (suc fuel) m a b =
    let rest = strcmp_loop fuel m (suc a) (suc b) in
    if not (m a == 0) && (m a == m b)
    then rest
    else some (if ltb (m a) (m b) then negsuc 0 else if ltb (m b) (m a) then pos 1 else pos 0)

unfoldable pub strcmp : ℕ → Memory → ℕ → ℕ → Option ℤ
strcmp fuel m a b = assert (not (a == null)) >> (assert (not (b == null)) >> strcmp_loop fuel m a b)

unfoldable pub find_byte : ℕ → Memory → ℕ → ℕ → ℕ
find_byte zero m block ch = null
find_byte (suc size) m block ch =
    let rest = find_byte size m (suc block) ch in if m block == ch then block else rest

unfoldable pub memchr : Memory → ℕ → ℕ → ℕ → Option ℕ
memchr m block ch size = assert (usable block size) >> some (find_byte size m block (ch % 256))

unfoldable pub strchr_loop : ℕ → Memory → ℕ → ℕ → Option ℕ
strchr_loop zero m string c = none
strchr_loop (suc fuel) m string c =
    let rest = strchr_loop fuel m (suc string) c in
    if m string == c then some string else if m string == 0 then some null else rest

unfoldable pub strchr : ℕ → Memory → ℕ → ℕ → Option ℕ
strchr fuel m string c = assert (not (string == null)) >> strchr_loop fuel m string (c % 256)

-- The length of the initial part of a string whose bytes are found in `set`, or are not.
unfoldable pub span_loop : ℕ → Bool → Memory → ℕ → ℕ → ℕ → Option ℕ
span_loop zero found m string set length = none
span_loop (suc fuel) found m string set length =
    let rest = span_loop fuel found m string set (suc length) in
    if m (string + length) == 0
    then some length
    else strchr (suc fuel) m set (m (string + length)) >>= λ p.
        if not (p == null)
        then (if found then rest else some length)
        else (if found then some length else rest)

unfoldable pub strcspn : ℕ → Memory → ℕ → ℕ → Option ℕ
strcspn fuel m string stop = span_loop fuel false m string stop 0

unfoldable pub strspn : ℕ → Memory → ℕ → ℕ → Option ℕ
strspn fuel m string skip = span_loop fuel true m string skip 0

unfoldable pub strpbrk : ℕ → Memory → ℕ → ℕ → Option ℕ
strpbrk zero m string stop = none
strpbrk (suc fuel) m string stop =
    let rest = strpbrk fuel m (suc string) stop in
    if m string == 0
    then some null
    else strchr (suc fuel) m stop (m string) >>= λ p. if p == null then rest else some string

unfoldable pub strrchr_loop : ℕ → Memory → ℕ → ℕ → ℕ → Option ℕ
strrchr_loop zero m string c p = none
strrchr_loop (suc fuel) m string c p =
    let rest = strrchr_loop fuel m (suc string) c (if m string == c then string else p) in
    if m string == 0 then some p else rest

unfoldable pub strrchr : ℕ → Memory → ℕ → ℕ → Option ℕ
strrchr fuel m string c = strrchr_loop fuel m string (c % 256) null

unfoldable pub fill : ℕ → Memory → ℕ → ℕ → Memory
fill zero m dst value = m
fill (suc size) m dst value = fill size (update m dst value) (suc dst) value

unfoldable pub memset : Memory → ℕ → ℕ → ℕ → Option (ℕ × Memory)
memset m dst value size = assert (usable dst size) >> some (dst, fill size m dst (value % 256))

-- `p` walks to the null byte; the result is the distance that it went.
unfoldable pub strlen_loop : ℕ → Memory → ℕ → Option ℕ
strlen_loop zero m p = none
strlen_loop (suc fuel) m p = if m p == 0 then some p else strlen_loop fuel m (suc p)

unfoldable pub strlen : ℕ → Memory → ℕ → Option ℕ
strlen fuel m string =
    assert (not (string == null)) >> (strlen_loop fuel m string >>= λ p. some (p - string))

-- Bounded by `maxlen`: `left` is `maxlen - length`.
unfoldable pub strnlen_loop : ℕ → Memory → ℕ → ℕ → ℕ
strnlen_loop zero m string length = length
strnlen_loop (suc left) m string length =
    let rest = strnlen_loop left m string (suc length) in
    if m (string + length) == 0 then length else rest

unfoldable pub strnlen : Memory → ℕ → ℕ → ℕ
strnlen m string maxlen = strnlen_loop maxlen m string 0

abbrev pub lesser : ℕ → ℕ → ℕ
lesser a b = if ltb a b then a else b

-- Copies at most `room` bytes of a string of length `src_len` and puts a null byte behind them.
unfoldable pub copy_string : Memory → ℕ → ℕ → ℕ → ℕ → Option Memory
copy_string m dst src src_len room = memcpy m dst src (lesser src_len room) >>= λ r.
    some (update (r.1) (dst + lesser src_len room) 0)

unfoldable pub strlcpy : ℕ → Memory → ℕ → ℕ → ℕ → Option (ℕ × Memory)
strlcpy fuel m dst src size =
    assert (not (dst == null))
    >> (assert (not (src == null))
        >> (strlen fuel m src >>= λ src_len.
            if ltb 0 size
            then (copy_string m dst src src_len (size - 1) >>= λ m. some (src_len, m))
            else some (src_len, m)))

unfoldable pub strlcat : ℕ → Memory → ℕ → ℕ → ℕ → Option (ℕ × Memory)
strlcat fuel m dst src size =
    assert (not (dst == null))
    >> (assert (not (src == null))
        >> (strlen fuel m src >>= λ src_len. strlen fuel m dst >>= λ dst_len.
            if ltb 0 size && ltb dst_len size
            then (copy_string m (dst + dst_len) src src_len (size - dst_len - 1) >>= λ m.
                some (src_len + dst_len, m))
            else some (src_len + dst_len, m)))
