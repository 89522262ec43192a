-- ===== src/Transaction/Containment.antt =====
-- server.c: which files a transaction reads.
use h_ss.Prelude.{
  length-append, ℕ, ◌+◌, ◌<◌, ◌≡◌, refl, sym, ap, ◌∙◌, inl, inr, arith, true, false, [], ◌∷◌, ◌++◌,
  none, some, Bytes, codes, length, take, drop, lex_eq, memcmp_eq, Option-cases, c_str,
}
use h_ss.Range.{strip_prefix}
use h_ss.Request.{Request}
use h_ss.Response.{Response}
use h_ss.Descriptors.{DescriptorType, listen_socket, tcp_socket, tls_socket}
use h_ss.Statics.{
  >>=-ext, ok, fault, defined, Statics, WorkingDirectory, ends_with_slash,
  current_working_directory,
}
use h_ss.Statics.Directory.{IsStored}
use h_ss.Transaction.{
  OpenedFile, World, Answer, route, get_url, redirect, handle_magic_call, handle_file,
  handle_http_transaction,
}

-- A NUL behind the path cannot stand for the slash that the directory ends with.
take-prefix :
    (d p : Bytes)
    → ends_with_slash d ≡ true
    → take (length d) (p ++ (0 ∷ [])) ≡ d
    → (rest : Bytes) × (p ≡ d ++ rest)
take-prefix [] p h e = (p, refl)
take-prefix (c ∷ []) [] h e = ground arith
take-prefix (c ∷ b ∷ d) [] h e = ground arith
take-prefix (c ∷ []) (x ∷ p) h e = (p, ground arith)
take-prefix (c ∷ b ∷ d) (x ∷ p) h e =
    let (rest, same) = take-prefix (b ∷ d) p h (ground arith) in (rest, ground arith)

pub memcmp_eq-none : (a b : Bytes) (n : ℕ) → length b < n → memcmp_eq a b n ≡ none
unfolding memcmp_eq
memcmp_eq-none a b n h = ground arith

pub memcmp_eq-short : (a b : Bytes) (n : ℕ) → length a < n → memcmp_eq a b n ≡ none
unfolding memcmp_eq
memcmp_eq-short a b n h = ground arith

pub memcmp_eq-take : (a b : Bytes) (n : ℕ) → memcmp_eq a b n ≡ some true → take n a ≡ take n b
unfolding memcmp_eq
memcmp_eq-take a b n h = ground (arith, lex_eq (take n a) (take n b))

take-all : (a : Bytes) → take (length a) a ≡ a
take-all [] = refl
take-all (c ∷ a) = ap (λ b. c ∷ b) (take-all a)

module _ (w : World) (open_file : Bytes → OpenedFile) (s : Statics) (request : Request)
    (response : Response) (d : WorkingDirectory) (stored : IsStored d)
    (found : current_working_directory s.directory w.getcwd ≡ ok d)
    (agree : (rest : Bytes) → open_file (d.path ++ rest) ≡ w.open_file (d.path ++ rest)) where
  same_file :
      (path : Bytes)
      → memcmp_eq d.path (path ++ (0 ∷ [])) d.length ≡ some true
      → open_file path ≡ w.open_file path
  same_file path m =
      let whole : take (length d.path) (path ++ (0 ∷ [])) ≡ d.path =
        sym (
          memcmp_eq-take d.path (path ++ (0 ∷ [])) (length d.path)
            (ap (λ n. memcmp_eq d.path (path ++ (0 ∷ [])) n) (sym stored.measured) ∙ m))
        ∙ take-all d.path in
      let (rest, same) = take-prefix d.path path stored.slash whole in
      ap open_file same ∙ agree rest ∙ sym (ap w.open_file same)

  handle_file-inside :
      (url : Bytes)
      → handle_file (record w { open_file = open_file }) s request response url
        ≡ handle_file w s request response url
  unfolding handle_file
  handle_file-inside url = elim (Option-cases (w.realpath (drop 1 url))) [
    | inl e ↦ rw (e, handle_file) refl
    | inr (path, e) ↦ elim (Option-cases (memcmp_eq d.path (path ++ (0 ∷ [])) d.length)) [
      | inl m ↦ rw (e, found, m, handle_file) refl
      | inr (false, m) ↦ rw (e, found, m, handle_file) refl
      | inr (true, m) ↦ rw (e, found, m, same_file path m, handle_file) refl
    ]
  ]

  by_url :
      (url : Bytes)
      → ◌≡◌ {A = Answer}
          (elim (strip_prefix (codes "/magic-call/") url) [
            | some call ↦
                handle_magic_call (record w { open_file = open_file }) s request response call
            | none ↦ handle_file (record w { open_file = open_file }) s request response url
          ])
          (elim (strip_prefix (codes "/magic-call/") url) [
            | some call ↦ handle_magic_call w s request response call
            | none ↦ handle_file w s request response url
          ])
  unfolding handle_magic_call
  by_url url =
      ap
        (λ a. elim (strip_prefix (codes "/magic-call/") url) as (λ _. Answer) [
          | some call ↦ handle_magic_call w s request response call
          | none ↦ a
        ])
        (handle_file-inside url)

  route-inside :
      (type : DescriptorType) (u : Bytes × ℕ)
      → route (record w { open_file = open_file }) type s request response u
        ≡ route w type s request response u
  unfolding route redirect handle_magic_call
  route-inside tcp_socket (url, n) = refl
  route-inside listen_socket (url, n) = by_url (c_str url)
  route-inside tls_socket (url, n) = by_url (c_str url)

  -- The real paths of names are given. What `open` gives for a path that does not lie below the working
  -- directory has no influence on the answer: with any other `open` that gives the same below it, the
  -- transaction answers the same. The working directory is stored, or stored by this call, with a slash
  -- at its end.
  pub transaction-inside :
      (type : DescriptorType)
      → handle_http_transaction (record w { open_file = open_file }) type s request response
        ≡ handle_http_transaction w type s request response
  unfolding handle_http_transaction get_url
  transaction-inside type = >>=-ext (defined (get_url w request)) _ _ (route-inside type)

-- A real path that is shorter than the working directory, its NUL included, is read past its end.
pub handle_file_short :
    (w : World) (s : Statics) (request : Request) (response : Response) (url path : Bytes)
    (d : WorkingDirectory)
    → current_working_directory s.directory w.getcwd ≡ ok d
    → w.realpath (drop 1 url) ≡ some path
    → length path + 1 < d.length
    → handle_file w s request response url ≡ fault
unfolding handle_file
handle_file_short w s request response url path d found e h =
    rw
      (
        e,
        found,
        memcmp_eq-none d.path (path ++ (0 ∷ [])) d.length
            (omega (arith, length-append path (0 ∷ []))),
        handle_file,
      )
      refl
