-- ===== src/FileCache/Caching.antt =====
-- A cache holds chunks of one file, and a fetch keeps it so: `copyChunk` of
-- examples/file_cache/file_cache.go.
use nola.Base.{
  ℕ, zero, suc, ◌+◌, ◌-◌, ◌*◌, ◌≤◌, ◌<◌, ◌≡◌, ◌⊎◌, inl, inr, refl, sym, ap, subst, ◌∙◌, Bool-cases,
  some, ◌++◌, Bytes, length, take, drop, ok, err, panic, arith, ltb, leb, ◌==◌, take-append_left,
  drop-append_left, drop-drop, take_all, length-drop,
}
use nola.FileCache.Reading.{ChunkCache, copy_n, min_of, Run, and_then, store_chunks}

-- Chunk `j` of a file.
abbrev pub chunk_of : ℕ → Bytes → ℕ → Bytes
chunk_of chunk_size file j = take chunk_size (drop (j * chunk_size) file)

-- What a reader gives is the file from an offset on, as far as it goes.
abbrev pub Reads : Bytes → ℕ → Bytes → Type 0
Reads file offset r = (rest : Bytes) × (r ++ rest ≡ drop offset file)

-- What is to be stored from a chunk on ends with the file or with a chunk.
abbrev pub IsAligned : ℕ → Bytes → ℕ → ℕ → Type 0
IsAligned chunk_size file idx remaining =
    (idx * chunk_size + remaining ≡ length file) ⊎ ((k : ℕ) × (remaining ≡ k * chunk_size))

pub copy_n-eq-ok :
    (r : Bytes) (n : ℕ) (p : Bytes × Bytes)
    → copy_n r n ≡ ok p
    → (n ≤ length r) × (p.0 ≡ take n r) × (p.1 ≡ drop n r)
unfolding copy_n
copy_n-eq-ok r n p h = ground arith

-- The bytes that a round stores are the chunk: a whole one, or what is left of the file.
whole_chunk_stored :
    (c n : ℕ) (file r : Bytes) (idx : ℕ)
    → Reads file (idx * c) r
    → n ≡ c
    → n ≤ length r
    → take n r ≡ chunk_of c file idx
whole_chunk_stored c n file r idx (rest, reads) full enough =
    sym (take-append_left n r rest enough)
    ∙ ap (take n) reads
    ∙ ap (λ k. take k (drop (idx * c) file)) full

last_chunk_stored :
    (c n : ℕ) (file r : Bytes) (idx : ℕ)
    → Reads file (idx * c) r
    → idx * c + n ≡ length file
    → n ≤ c
    → n ≤ length r
    → take n r ≡ chunk_of c file idx
last_chunk_stored c n file r idx (rest, reads) ends short enough =
    let left : length (drop (idx * c) file) ≡ n = omega (arith, length-drop (idx * c) file, ends) in
    sym (take-append_left n r rest enough)
    ∙ ap (take n) reads
    ∙ take_all n (drop (idx * c) file) (omega (arith, left))
    ∙ sym (take_all c (drop (idx * c) file) (omega (arith, left, short)))

not_less_than_one : (c k n : ℕ) → n ≡ k * c → 0 < n → c ≤ n
not_less_than_one c zero n e p = absurd (omega (arith, e, p))
not_less_than_one c (suc k) n e p = omega (arith, e)

stored_chunk :
    (c : ℕ) (file r : Bytes) (idx remaining : ℕ)
    → Reads file (idx * c) r
    → IsAligned c file idx remaining
    → 0 < remaining
    → min_of remaining c ≤ length r
    → take (min_of remaining c) r ≡ chunk_of c file idx
stored_chunk c file r idx remaining reads (inl ends) more enough =
    elim (Bool-cases (ltb c remaining)) [
      | inl whole ↦
          whole_chunk_stored c (min_of remaining c) file r idx reads (ground (arith, whole)) enough
      | inr last ↦
          last_chunk_stored c (min_of remaining c) file r idx reads (ground (arith, last, ends))
            (ground (arith, last)) enough
    ]
stored_chunk c file r idx remaining reads (inr (k, chunks)) more enough =
    let at_least : c ≤ remaining = not_less_than_one c k remaining chunks more in
    whole_chunk_stored c (min_of remaining c) file r idx reads (ground (arith, at_least)) enough

-- What is left after a round, if anything is.
next-Reads :
    (c n : ℕ) (file r : Bytes) (idx : ℕ)
    → Reads file (idx * c) r
    → n ≡ c
    → n ≤ length r
    → Reads file ((idx + 1) * c) (drop n r)
next-Reads c n file r idx (rest, reads) full enough = (
  rest,
  sym (drop-append_left n r rest enough)
      ∙ ap (drop n) reads
      ∙ drop-drop (idx * c) n file
      ∙ ap (λ k. drop k file) (omega (arith, full)),
)

next-IsAligned :
    (c : ℕ) (file : Bytes) (idx remaining : ℕ)
    → IsAligned c file idx remaining
    → c ≤ remaining
    → IsAligned c file (idx + 1) (remaining - c)
next-IsAligned c file idx remaining (inl ends) le = inl (omega (arith, ends, le))
next-IsAligned c file idx remaining (inr (zero, chunks)) le = inr (0, omega (arith, chunks))
next-IsAligned c file idx remaining (inr (suc k, chunks)) le = inr (k, omega (arith, chunks))

module _ (c : ChunkCache) where
  pub and_then-keeps :
      {A B : Type 0} (P : c.State → Type 0) (x : Run c A) (k : A → c.State → Run c B)
      → P x.1
      → ((a : A) → x.0 ≡ ok a → P (k a x.1).1)
      → P (and_then c x k).1
  and_then-keeps P (ok a, s) k p h = h a refl
  and_then-keeps P (err e, s) k p h = p
  and_then-keeps P (panic, s) k p h = p

  module _ (chunk_size : ℕ) (file : Bytes) where
    -- Every chunk that the cache has is the file's.
    abbrev pub Caches : c.State → Type 0
    Caches s = (j : ℕ) (v : Bytes) → c.get s j ≡ ok (some v) → v ≡ chunk_of chunk_size file j

    put-Caches :
        (s : c.State) (idx : ℕ) (b : Bytes)
        → b ≡ chunk_of chunk_size file idx
        → Caches s
        → Caches (c.put s idx b).1
    put-Caches s idx b same before j v h = elim (c.get-put s idx b j v h) [
      | inl (at, now) ↦ now ∙ same ∙ ap (chunk_of chunk_size file) (sym at)
      | inr had ↦ before j v had
    ]

    store_chunks_over :
        (fuel remaining idx : ℕ) (r : Bytes) (s : c.State)
        → remaining ≡ 0
        → store_chunks c fuel chunk_size remaining idx r s ≡ (ok tt, s)
    unfolding store_chunks
    store_chunks_over zero remaining idx r s e = rw e refl
    store_chunks_over (suc fuel) remaining idx r s e = rw e refl

    pub store_chunks-Caches :
        (fuel remaining idx : ℕ) (r : Bytes) (s : c.State)
        → 0 < chunk_size
        → Reads file (idx * chunk_size) r
        → IsAligned chunk_size file idx remaining
        → Caches s
        → Caches (store_chunks c fuel chunk_size remaining idx r s).1
    unfolding store_chunks
    store_chunks-Caches zero remaining idx r s positive reads aligned before =
        elim (Bool-cases (remaining == 0)) [ inl over ↦ rw over before | inr more ↦ rw more before ]
    store_chunks-Caches (suc fuel) remaining idx r s positive reads aligned before =
        elim (Bool-cases (remaining == 0)) [
          | inl over ↦ rw over before
          | inr more ↦ rw more (
              and_then-keeps Caches (copy_n r (min_of remaining chunk_size), s) _ before
                λ (copied, rest) took.
                  let (enough, is_taken, is_left) = copy_n-eq-ok r _ (copied, rest) took in
                  let is_chunk =
                    is_taken
                    ∙ stored_chunk chunk_size file r idx remaining reads aligned
                        (ground (arith, more)) enough in
                  and_then-keeps Caches (c.put s idx copied) _
                    (put-Caches s idx copied is_chunk before)
                    λ _ _.
                      let stored = put-Caches s idx copied is_chunk before in
                      elim (Bool-cases (leb chunk_size remaining)) [
                        | inl le ↦
                            let full : min_of remaining chunk_size ≡ chunk_size =
                              ground (arith, le) in
                            store_chunks-Caches fuel (remaining - min_of remaining chunk_size)
                              (idx + 1) rest (c.put s idx copied).1 positive
                              (subst (Reads file ((idx + 1) * chunk_size)) (sym is_left)
                                (next-Reads chunk_size _ file r idx reads full enough))
                              (subst (λ n. IsAligned chunk_size file (idx + 1) (remaining - n))
                                (sym full)
                                (next-IsAligned chunk_size file idx remaining aligned
                                  (ground (arith, le))))
                              stored
                        | inr lt ↦
                            subst (λ (o : Run c (Unit {0})). Caches o.1)
                              (sym (
                                store_chunks_over fuel (remaining - min_of remaining chunk_size)
                                  (idx + 1) rest (c.put s idx copied).1 (ground (arith, lt))))
                              stored
                      ])
        ]
