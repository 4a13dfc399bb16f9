-- ===== src/HashTable/Keys.antt =====
-- src/lib/kernel/hash.c: the hashes of keys, by Fowler, Noll and Vo.

use Prim.Native.Nat.{bit_xor}
use cs.Common.{
  ℕ, zero, suc, ◌*◌, ◌/◌, ◌%◌, ◌^◌, ◌<◌, ◌≡◌, refl, ap, false, Option, none, some, ◌==◌,
  if◌then◌else◌, not, ◌>>◌, assert, null, arith,
}
use cs.Strings.{Memory}
use cs.Strings.Lengths.{IsString, tail-IsString, head_ne, end_eq}

abbrev pub fnv_32_prime : ℕ
fnv_32_prime = 16777619

abbrev pub fnv_32_basis : ℕ
fnv_32_basis = 2166136261

abbrev pub add_byte : ℕ → ℕ → ℕ
add_byte hash byte = bit_xor ((hash * fnv_32_prime) % 2 ^ 32) byte

unfoldable pub bytes_loop : ℕ → Memory → ℕ → ℕ → ℕ
bytes_loop zero m buf hash = hash
bytes_loop (suc size) m buf hash = bytes_loop size m (suc buf) (add_byte hash (m buf))

unfoldable pub hash_bytes : Memory → ℕ → ℕ → Option ℕ
hash_bytes m buf size = assert (not (buf == null)) >> some (bytes_loop size m buf fnv_32_basis)

unfoldable pub string_loop : ℕ → Memory → ℕ → ℕ → Option ℕ
string_loop zero m s hash = none
string_loop (suc fuel) m s hash =
    let rest = string_loop fuel m (suc s) (add_byte hash (m s)) in
    if m s == 0 then some hash else rest

unfoldable pub hash_string : ℕ → Memory → ℕ → Option ℕ
hash_string fuel m s = assert (not (s == null)) >> string_loop fuel m s fnv_32_basis

-- `i` is the integer's 32 bits; its bytes lie in a local variable, the lowest first.
unfoldable pub hash_int : ℕ → ℕ
hash_int i =
    bytes_loop 4
      (λ j.
        (if j == 0
          then i
          else if j == 1
          then i / 256
          else if j == 2
          then i / 65536
          else i / 16777216)
        % 256)
      0 fnv_32_basis

string_loop-bytes_loop :
    (n fuel : ℕ) (m : Memory) (s hash : ℕ)
    → IsString m s n
    → n < fuel
    → string_loop fuel m s hash ≡ some (bytes_loop n m s hash)
unfolding string_loop bytes_loop
string_loop-bytes_loop n zero m s hash h l = absurd (omega arith)
string_loop-bytes_loop zero (suc fuel) m s hash h l = rw (end_eq m s h) refl
string_loop-bytes_loop (suc n) (suc fuel) m s hash h l =
    let ne : (m s == 0) ≡ false = ground (arith, head_ne m s n h) in
    rw ne (
      string_loop-bytes_loop n fuel m (suc s) (add_byte hash (m s)) (tail-IsString m s n h)
        (omega arith))

-- With fuel for the bytes of a string and its null byte, `hash_string` returns, and its hash is that
-- of `hash_bytes` on the bytes before the null byte.
pub hash_string-hash_bytes :
    (n fuel : ℕ) (m : Memory) (s : ℕ)
    → IsString m s n
    → n < fuel
    → hash_string fuel m s ≡ hash_bytes m s n
unfolding hash_string hash_bytes
hash_string-hash_bytes n fuel m s h l =
    ap (λ o. assert (not (s == null)) >> o) (string_loop-bytes_loop n fuel m s fnv_32_basis h l)
