-- ===== src/Bloom/Stored.antt =====
-- `Serialize` and `Deserialize`.
use lsm_tree_go.Common.{
  ℕ, suc, ◌/◌, ◌^◌, ◌<◌, ◌≡◌, refl, ap, sym, ◌∙◌, some, List, [], ◌∷◌, ◌++◌, length, All, drop,
  arith, drop-append_at,
}
use mathlib.Core.List.{append_assoc}
use lsm_tree_go.Common.Keys.{Bytes}
use lsm_tree_go.Common.Varint.{
  uvarint_bytes, little_endian, read_little_endian, uvarint-uvarint_bytes,
  read_little_endian-little_endian, length-little_endian,
}
use lsm_tree_go.Bloom.{Filter, word_bytes, serialize, read_words, deserialize}
use lsm_tree_go.Bloom.Members.{IsValid}

read_words_step :
    (n : ℕ) (r : Bytes) (w : ℕ)
    → read_little_endian 8 r ≡ some w
    → read_words (suc n) r ≡ w ∷ read_words n (drop 8 r)
unfolding read_words
read_words_step n r w h = rw (h, read_words)

read_words-word_bytes :
    (ws : List ℕ) (rest : Bytes)
    → All (λ w. w < 2 ^ 64) ws
    → read_words (length ws) (word_bytes ws ++ rest) ≡ ws
unfolding read_words word_bytes
read_words-word_bytes [] rest h = refl
read_words-word_bytes (w ∷ ws) rest h = rw (append_assoc (little_endian 8 w) (word_bytes ws) rest) (
    read_words_step (length ws) (little_endian 8 w ++ (word_bytes ws ++ rest)) w
      (read_little_endian-little_endian 8 w (word_bytes ws ++ rest) h.0)
    ∙ rw
        (drop-append_at 8 (little_endian 8 w) (word_bytes ws ++ rest)
          (sym (length-little_endian 8 w)))
        (ap (◌∷◌ w) (read_words-word_bytes ws rest h.1)))

-- A valid filter whose words and hash count are uint64s is read back from its bytes, whatever stands
-- behind them.
pub deserialize-serialize :
    (f : Filter) (rest : Bytes)
    → IsValid f
    → All (λ w. w < 2 ^ 64) f.bits
    → f.num_hash < 2 ^ 64
    → deserialize (serialize f ++ rest) ≡ some f
unfolding deserialize serialize
deserialize-serialize f rest v words hashes = rw (
  append_assoc (uvarint_bytes f.num_bits) (uvarint_bytes f.num_hash ++ word_bytes f.bits) rest,
  uvarint-uvarint_bytes f.num_bits ((uvarint_bytes f.num_hash ++ word_bytes f.bits) ++ rest)
      v.small,
  append_assoc (uvarint_bytes f.num_hash) (word_bytes f.bits) rest,
  uvarint-uvarint_bytes f.num_hash (word_bytes f.bits ++ rest) hashes,
  count,
  read_words-word_bytes f.bits rest words,
)
  where
    count : f.num_bits / 64 ≡ length f.bits
    count = omega (arith, v.words)
