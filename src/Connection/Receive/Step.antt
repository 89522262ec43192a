-- ===== src/Connection/Receive/Step.antt =====
-- server.c: one round of the receiving loop.
use h_ss.Prelude.{
  ℕ, zero, suc, ◌+◌, ◌-◌, ◌*◌, ◌≤◌, ◌<◌, ◌≡◌, ◌≢◌, ◌⊎◌, inl, inr, refl, sym, ap, ◌∙◌, arith, List,
  [], ◌∷◌, ◌++◌, ◌==◌, ltb, leb, Bytes, length, take, drop, length-append, append_assoc, append-nil,
  length-drop, All, All-append, Bool-cases,
}
use h_ss.Response.Valid.{length-take}
use h_ss.Connection.Receive.{
  Ending, Socket, received, recv, recv_chunk, take_round, page_size, page_count, Pages, goes_on,
  overflows, store, receive_round,
}

-- All bytes of a list of blocks.
unfoldable pub flatten : List Bytes → Bytes
flatten [] = []
flatten (b ∷ bs) = b ++ flatten bs

abbrev pub bytes_of : Pages → Bytes
bytes_of p = flatten p.full ++ p.page

abbrev IsPage : Bytes → Type 0
IsPage b = length b ≡ page_size

abbrev pub NotEmpty : Bytes → Type 0
NotEmpty b = b ≢ []

pub record IsPaged (p : Pages) : Type 0 where
  pub whole : All IsPage p.full
  pub partial : length p.page < page_size
  pub counted : length p.full < page_count
  pub measured : p.total_size ≡ length (bytes_of p)

pub flatten-append : (cs bs : List Bytes) → flatten (cs ++ bs) ≡ flatten cs ++ flatten bs
unfolding flatten
flatten-append [] bs = refl
flatten-append (c ∷ cs) bs =
    ap (λ t. c ++ t) (flatten-append cs bs) ∙ sym (append_assoc c (flatten cs) (flatten bs))

pub length-flatten : (bs : List Bytes) → All IsPage bs → length (flatten bs) ≡ page_size * length bs
unfolding flatten
length-flatten [] h = omega arith
length-flatten (b ∷ bs) h = omega (arith, length-append b (flatten bs), h.0, length-flatten bs h.1)

pub take-drop : (n : ℕ) (b : Bytes) → take n b ++ drop n b ≡ b
take-drop zero b = refl
take-drop (suc n) [] = refl
take-drop (suc n) (c ∷ b) = ap (λ t. c ∷ t) (take-drop n b)

stored_whole :
    (p : Pages) (bytes : Bytes)
    → flatten (p.full ++ ((p.page ++ bytes) ∷ [])) ++ [] ≡ bytes_of p ++ bytes
unfolding flatten
stored_whole p bytes =
    append-nil (flatten (p.full ++ ((p.page ++ bytes) ∷ [])))
    ∙ flatten-append p.full ((p.page ++ bytes) ∷ [])
    ∙ ap (λ t. flatten p.full ++ t) (append-nil (p.page ++ bytes))
    ∙ sym (append_assoc (flatten p.full) p.page bytes)

-- A round that takes bytes in: they move from the socket to the pages.
pub store_step :
    {S : Type 0} (p : Pages) (bytes : Bytes) (rest : S)
    → IsPaged p
    → length bytes ≤ page_size - length p.page
    → ((store p bytes rest ≡ overflows)
        × (page_size * page_count ≤ length (bytes_of p) + length bytes))
      ⊎ ((q : Pages) × (store p bytes rest ≡ goes_on q rest)
          × IsPaged q
          × (bytes_of q ≡ bytes_of p ++ bytes))
store_step p bytes rest v fits =
    elim (Bool-cases (ltb (length bytes) (page_size - length p.page))) [
      | inl short ↦ inr (
        record p { page = p.page ++ bytes; total_size = p.total_size + length bytes },
        rw short refl,
        record {
          whole = v.whole;
          partial = ground (arith, length-append p.page bytes, v.partial);
          counted = v.counted;
          measured = omega (
            arith,
            v.measured,
            length-append (flatten p.full) p.page,
            length-append p.page bytes,
            length-append (flatten p.full) (p.page ++ bytes),
          );
        },
        sym (append_assoc (flatten p.full) p.page bytes),
      )
      | inr long ↦
          let filled : IsPage (p.page ++ bytes) =
            ground (arith, length-append p.page bytes, v.partial) in
          elim (Bool-cases (length p.full + 1 == page_count)) [
            | inl last ↦ inl (
              rw (long, last) refl,
              ground (
                arith,
                filled,
                length-append p.page bytes,
                length-append (flatten p.full) p.page,
                length-flatten p.full v.whole,
              ),
            )
            | inr room ↦ inr (
              record {
                full = p.full ++ ((p.page ++ bytes) ∷ []);
                page = [];
                total_size = p.total_size + length bytes;
              },
              rw (long, room) refl,
              record {
                whole = All-append IsPage p.full ((p.page ++ bytes) ∷ []) v.whole (filled, tt);
                partial = omega arith;
                counted = ground (arith, length-append p.full ((p.page ++ bytes) ∷ []), v.counted);
                measured = omega (
                  arith,
                  v.measured,
                  ap length (stored_whole p bytes),
                  length-append (bytes_of p) bytes,
                );
              },
              stored_whole p bytes,
            )
          ]
    ]

length-pos : (c : Bytes) → c ≢ [] → 0 < length c
length-pos [] h = absurd (h refl)
length-pos (c ∷ cs) h = omega arith

drop-NotEmpty : (n : ℕ) (c : Bytes) → n < length c → drop n c ≢ []
drop-NotEmpty n c h e = ground (arith, length-drop n c, ap length e)

pub recv_chunk_lem :
    (c : Bytes) (cs : List Bytes) (ending : Ending) (room : ℕ)
    → c ≢ []
    → All NotEmpty cs
    → 0 < room
    → (bytes : Bytes) × (s : Socket) × (recv_chunk c cs ending room ≡ (received bytes, s))
      × (0 < length bytes)
      × (length bytes ≤ room)
      × (bytes ++ flatten s.chunks ≡ c ++ flatten cs)
      × All NotEmpty s.chunks
      × (s.ending ≡ ending)
unfolding flatten
recv_chunk_lem c cs ending room h k pos = elim (Bool-cases (leb (length c) room)) [
  | inl fits ↦ (
    c,
    record { chunks = cs; ending = ending },
    rw fits refl,
    length-pos c h,
    ground arith,
    refl,
    k,
    refl,
  )
  | inr long ↦ (
    take room c,
    record { chunks = drop room c ∷ cs; ending = ending },
    rw long refl,
    ground (arith, length-take room c),
    ground (arith, length-take room c),
    sym (append_assoc (take room c) (drop room c) (flatten cs))
        ∙ ap (λ t. t ++ flatten cs) (take-drop room c),
    (drop-NotEmpty room c (ground arith), k),
    refl,
  )
]

-- A round on a socket with a chunk: it moves bytes from the socket to the pages, or it would need more
-- pages than there are.
pub round_lem :
    (p : Pages) (c : Bytes) (cs : List Bytes) (ending : Ending)
    → IsPaged p
    → All NotEmpty (c ∷ cs)
    → ((receive_round recv p (record { chunks = c ∷ cs; ending = ending }) ≡ overflows)
        × (page_size * page_count ≤ length (bytes_of p) + length (flatten (c ∷ cs))))
      ⊎ ((q : Pages) × (left : List Bytes) × (receive_round recv p
              (record { chunks = c ∷ cs; ending = ending })
            ≡ goes_on q (record { chunks = left; ending = ending }))
          × IsPaged q
          × All NotEmpty left
          × (bytes_of q ++ flatten left ≡ bytes_of p ++ flatten (c ∷ cs))
          × (length (bytes_of q) + length (flatten left)
              ≡ length (bytes_of p) + length (flatten (c ∷ cs)))
          × (length (flatten left) < length (flatten (c ∷ cs)))
          × (0 < q.total_size))
unfolding receive_round recv flatten
round_lem p c cs ending v h =
    let (bytes, s, made, pos, fits, same, left, kept) =
      recv_chunk_lem c cs ending (page_size - length p.page) h.0 h.1 (omega (arith, v.partial)) in
    let stored : take_round p (received bytes, s) ≡ store p bytes s = ground arith in
    elim (store_step p bytes s v fits) [
      | inl (e, bound) ↦ inl (
        rw made (stored ∙ e),
        omega (arith, bound, ap length same, length-append bytes (flatten s.chunks)),
      )
      | inr (q, e, w, moved) ↦
          let whole : bytes_of q ++ flatten s.chunks ≡ bytes_of p ++ (c ++ flatten cs) =
            ap (λ t. t ++ flatten s.chunks) moved
            ∙ append_assoc (bytes_of p) bytes (flatten s.chunks)
            ∙ ap (λ t. bytes_of p ++ t) same in
          inr (
            q,
            s.chunks,
            rw made (stored ∙ e)
                ∙ ap (λ k. goes_on q (record { chunks = s.chunks; ending = k })) kept,
            w,
            left,
            whole,
            omega (
              arith,
              ap length whole,
              length-append (bytes_of q) (flatten s.chunks),
              length-append (bytes_of p) (c ++ flatten cs),
            ),
            omega (arith, ap length same, length-append bytes (flatten s.chunks)),
            omega (arith, w.measured, ap length moved, length-append (bytes_of p) bytes),
          )
    ]
