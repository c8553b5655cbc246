-- ===== src/Net/Folder/Entries.antt =====
-- One entry of a folder pull of engine.rs: what it leaves in the tree.
use mathlib.Core.Option
use mascara.Common.{
  ℕ, ◌≡◌, ◌≢◌, ◌⊎◌, refl, ap, sym, subst, ◌∙◌, true, false, List, Option, none, some, [], ◌∷◌, ◌++◌,
  Result, ok, err, list_eq, nat_eq, length, Option-cases, Result-cases, inl, inr, arith, eq_refl,
  eq_false,
}
use mascara.Common.Text.{Text, Bytes, codes, split}
use mascara.Core.Ticket.{FileRef}
use mascara.Core.Manifest.{ManifestEntry}
use mascara.Core.Registry.{Nonce}
use mascara.Net.Error.{NetError}
use mascara.Net.PathGuard.{is_slash, safe_rel_path, safe_filename}
use mascara.Net.Listener.Serve.{Request}
use mascara.Net.Pull.{Dir, Incoming, pull_file_inner}
use mascara.Net.Pull.Landing.{IsLanded, inner-IsLanded}
use mascara.Net.Pull.Outcomes.{inner-err}
use mascara.Net.Folder.{
  Parts, Tree, set_dir, Destination, Turn, parent, last_part, beneath, file_name,
  prepare_entry_dest, relocated, in_tree, pull_entry, pull_next,
}
use mascara.Net.Folder.Leaf.{split-filled, guarded, relocate-same}

same_ok : {a b : Text} → ◌≡◌ {A = Result Text NetError} (ok a) (ok b) → a ≡ b
same_ok h = cc (h)

module _ (dest : Destination) where
  -- Where the partial file of an entry stands.
  abbrev pub home : ManifestEntry → Parts
  home entry = dest.resolve (parent (split is_slash entry.rel_path))

  abbrev pub part_name : ManifestEntry → Text
  part_name entry = last_part (split is_slash entry.rel_path) ++ codes ".part"

  -- The partial file of an entry is no symbolic link.
  abbrev pub NoLink : ManifestEntry → Type 0
  NoLink entry =
      dest.is_symlink (parent (split is_slash entry.rel_path) ++ part_name entry ∷ []) ≡ false

  -- Only files in the entry's directory changed, and it is beneath the chosen one.
  pub record StaysHome (entry : ManifestEntry) (t t' : Tree) : Type 0 where
    pub guarded_path : safe_rel_path entry.rel_path ≡ ok entry.rel_path
    pub under : beneath (home entry) (dest.resolve []) ≡ true
    pub elsewhere : (q : Parts) → q ≢ home entry → t' q ≡ t q

  module _ (digest : Bytes → Bytes) where
    -- What an entry leaves that was pulled well.
    pub record EntryLanded (t : Tree) (entry : ManifestEntry) (path : Parts) (t' : Tree)
        : Type 0 where
      pub stays : StaysHome entry t t'
      pub final : Text
      pub whole : Bytes
      pub at : path ≡ parent (split is_slash entry.rel_path) ++ final ∷ []
      pub was_free : t (home entry) final ≡ none
      pub landed : t' (home entry) final ≡ some whole
      pub sized : length whole ≡ entry.size
      pub hashed : digest whole ≡ entry.sha256
      pub part_gone : t' (home entry) (part_name entry) ≡ none
      pub others :
          (m : Text) → m ≢ final → m ≢ part_name entry → t' (home entry) m ≡ t (home entry) m

  -- What an entry leaves that failed: nothing new but its partial file.
  abbrev pub EntryFailed : Tree → ManifestEntry → Tree → Type 0
  EntryFailed t entry t' =
      (t' ≡ t)
      ⊎ (StaysHome entry t t'
          × ((m : Text) → m ≢ part_name entry → t' (home entry) m ≡ t (home entry) m))

set_dir_self : (p : Parts) (d : Dir) (t : Tree) → set_dir p d t p ≡ d
unfolding set_dir
set_dir_self p d t = rw (eq_refl p) refl

set_dir_ne : (p q : Parts) (d : Dir) (t : Tree) → q ≢ p → set_dir p d t q ≡ t q
unfolding set_dir
set_dir_ne p q d t h = rw (eq_false p q (λ e. h (sym e))) refl

stays_home :
    (dest : Destination) (entry : ManifestEntry) (t t' : Tree) (d : Dir)
    → safe_rel_path entry.rel_path ≡ ok entry.rel_path
    → beneath (home dest entry) (dest.resolve []) ≡ true
    → t' ≡ set_dir (home dest entry) d t
    → StaysHome dest entry t t'
stays_home dest entry t t' d safe under same = record {
  guarded_path = safe;
  under = under;
  elsewhere = λ q other. ap (λ (x : Tree). x q) same ∙ set_dir_ne (home dest entry) q d t other;
}

at_home :
    (p : Parts) (t t' : Tree) (d : Dir) (m : Text) (b : Option Bytes)
    → t' ≡ set_dir p d t
    → d m ≡ b
    → t' p m ≡ b
at_home p t t' d m b same e =
    ap (λ (x : Tree). x p m) same ∙ ap (λ (x : Dir). x m) (set_dir_self p d t) ∙ e

-- A destination that was prepared.
prepared :
    (dest : Destination) (made : List Parts) (rel : Text) (segs : Parts)
    → (prepare_entry_dest dest made rel).0 ≡ ok segs
    → (segs ≡ split is_slash rel)
      × (beneath (dest.resolve (parent (split is_slash rel))) (dest.resolve []) ≡ true)
unfolding prepare_entry_dest
prepared dest made rel segs h = ground arith

module _ (digest : Bytes → Bytes) (decimal : ℕ → Text) (fuel : ℕ) (lossy : Bytes → Text)
    (dest : Destination) (nonce : Nonce) where
  abbrev pub leaf_ref : ManifestEntry → FileRef
  leaf_ref entry = record {
    name = last_part (split is_slash entry.rel_path);
    size = entry.size;
    sha256 = entry.sha256;
    md5 = entry.md5;
    mime = none;
  }

  abbrev full_ref : ManifestEntry → FileRef
  full_ref entry = record {
    name = entry.rel_path;
    size = entry.size;
    sha256 = entry.sha256;
    md5 = entry.md5;
    mime = none;
  }

  -- The pull of the file that an entry comes down to.
  abbrev pub inner :
      Turn → (Request → Incoming) → ManifestEntry → Dir → Option (Result Text NetError × Dir)
  inner turn peer entry d =
      pull_file_inner digest decimal fuel lossy turn.local peer nonce entry.rel_path
        (leaf_ref entry) 0 d

  -- An entry's answer, by the answer of its file.
  abbrev pub lifted :
      ManifestEntry → Tree → Result Text NetError × Dir → Result Parts NetError × Tree
  lifted entry t (err why, d) = (err why, set_dir (home dest entry) d t)
  lifted entry t (ok final, d) =
      (ok (parent (split is_slash entry.rel_path) ++ final ∷ []), set_dir (home dest entry) d t)

  lifted-relocated :
      (turn : Turn) (entry : ManifestEntry) (t : Tree) (r : Result Text NetError × Dir)
      → in_tree (home dest entry) t (
          relocated turn
            (last_part (split is_slash entry.rel_path))
            (split is_slash entry.rel_path)
            r)
        ≡ lifted entry t r
  unfolding relocated
  lifted-relocated turn entry t (err why, d) = refl
  lifted-relocated turn entry t (ok final, d) =
      ap (in_tree (home dest entry) t)
        (relocate-same turn (split is_slash entry.rel_path) final d (split-filled entry.rel_path))

  entry-lifted :
      (turn : Turn) (peer : Request → Incoming) (entry : ManifestEntry) (t : Tree)
      → file_name entry.rel_path ≡ some (last_part (split is_slash entry.rel_path))
      → NoLink dest entry
      → pull_entry digest decimal fuel lossy dest nonce turn peer
          (full_ref entry)
          (split is_slash entry.rel_path)
          t
        ≡ Option.map (lifted entry t) (inner turn peer entry (t (home dest entry)))
  unfolding pull_entry
  entry-lifted turn peer entry t named plain =
      rw (pull_entry, named, plain)
        (λ i.
          Option.map (λ r. lifted-relocated turn entry t r i)
            (inner turn peer entry (t (home dest entry))))

  -- What `pull_next` goes through: it stops before the tree is touched, or pulls the entry's file.
  pub next-cases :
      (turn : Turn) (entry : ManifestEntry) (t : Tree)
      → NoLink dest entry
      → ((why : NetError) × (pull_next digest decimal fuel lossy dest nonce turn entry t
            ≡ some (err why, t)))
        ⊎ ((peer : Request → Incoming) × (safe_rel_path entry.rel_path ≡ ok entry.rel_path)
            × (safe_filename (last_part (split is_slash entry.rel_path))
                ≡ ok (last_part (split is_slash entry.rel_path)))
            × (beneath (home dest entry) (dest.resolve []) ≡ true)
            × (pull_next digest decimal fuel lossy dest nonce turn entry t
                ≡ Option.map (lifted entry t) (inner turn peer entry (t (home dest entry)))))
  unfolding pull_next
  next-cases turn entry t plain = elim (Result-cases (safe_rel_path entry.rel_path)) [
    | inr (why, bad) ↦ inl (why, rw (pull_next, bad) refl)
    | inl (out, good) ↦ elim (Result-cases (prepare_entry_dest dest turn.made entry.rel_path).0) [
      | inr (why, bad) ↦ inl (why, rw (pull_next, good, bad) refl)
      | inl (segs, ready) ↦ elim (Result-cases turn.opened) [
        | inr (why, bad) ↦ inl (why, rw (pull_next, good, ready, bad) refl)
        | inl (peer, opened) ↦
            let (safe, named, leaf) = guarded entry.rel_path out good in
            let (same, under) = prepared dest turn.made entry.rel_path segs ready in
            inr (
              peer,
              safe,
              leaf,
              under,
              rw (pull_next, good, ready, opened, same)
                  (entry-lifted turn peer entry t named plain),
            )
      ]
    ]
  ]

  -- An entry that is pulled well.
  pub pull_next-EntryLanded :
      (turn : Turn) (entry : ManifestEntry) (t : Tree) (path : Parts) (t' : Tree)
      → NoLink dest entry
      → pull_next digest decimal fuel lossy dest nonce turn entry t ≡ some (ok path, t')
      → EntryLanded dest digest t entry path t'
  pull_next-EntryLanded turn entry t path t' plain h = elim (next-cases turn entry t plain) [
    | inl (why, bad) ↦ cc (h, bad)
    | inr (peer, safe, leaf, under, lift) ↦
        elim (Option-cases (inner turn peer entry (t (home dest entry)))) [
          | inl e ↦ cc (rw e at lift, h)
          | inr ((err why, d), e) ↦ cc (rw e at lift, h)
          | inr ((ok final, d), e) ↦
              let it : ◌≡◌ {A = Option (Result Parts NetError × Tree)}
                  (some (
                    ok (parent (split is_slash entry.rel_path) ++ final ∷ []),
                    set_dir (home dest entry) d t,
                  ))
                  (some (ok path, t')) =
                sym (rw e at lift) ∙ h in
              let same : t' ≡ set_dir (home dest entry) d t = cc (it) in
              let (name, good, il) =
                inner-IsLanded digest decimal fuel lossy turn.local peer nonce entry.rel_path
                  (leaf_ref entry) (t (home dest entry)) final d e in
              let named : name ≡ last_part (split is_slash entry.rel_path) =
                same_ok (sym good ∙ leaf) in
              let (whole, landed, sized, hashed, was_free, gone, others) =
                subst
                  (λ n.
                    IsLanded digest decimal fuel lossy (t (home dest entry)) (leaf_ref entry) n
                      final d)
                  named il in
              record {
                stays = stays_home dest entry t t' d safe under same;
                final = final;
                whole = whole;
                at = cc (it);
                was_free = was_free;
                landed = at_home (home dest entry) t t' d final (some whole) same landed;
                sized = sized;
                hashed = hashed;
                part_gone = at_home (home dest entry) t t' d (part_name dest entry) none same gone;
                others = λ m a b.
                    at_home (home dest entry) t t' d m (t (home dest entry) m) same (others m a b);
              }
        ]
  ]

  pub pull_next-EntryFailed :
      (turn : Turn) (entry : ManifestEntry) (t : Tree) (why : NetError) (t' : Tree)
      → NoLink dest entry
      → pull_next digest decimal fuel lossy dest nonce turn entry t ≡ some (err why, t')
      → EntryFailed dest t entry t'
  pull_next-EntryFailed turn entry t why t' plain h = elim (next-cases turn entry t plain) [
    | inl (other, bad) ↦ inl (cc (h, bad))
    | inr (peer, safe, leaf, under, lift) ↦
        elim (Option-cases (inner turn peer entry (t (home dest entry)))) [
          | inl e ↦ cc (rw e at lift, h)
          | inr ((ok final, d), e) ↦ cc (rw e at lift, h)
          | inr ((err other, d), e) ↦
              let same : t' ≡ set_dir (home dest entry) d t = cc (rw e at lift, h) in
              elim (inner-err digest decimal fuel lossy turn.local peer nonce entry.rel_path
                (leaf_ref entry) 0 (t (home dest entry)) other d e) [
                  | inl (unchanged, bad) ↦ cc (bad, leaf)
                  | inr (name, good, kept, gone) ↦
                      let named : name ≡ last_part (split is_slash entry.rel_path) =
                        same_ok (sym good ∙ leaf) in
                      inr (
                        stays_home dest entry t t' d safe under same,
                        λ m ne.
                            at_home (home dest entry) t t' d m (t (home dest entry) m) same
                              (kept m (λ p. ne (p ∙ ap (λ n. n ++ codes ".part") named))),
                      )
                ]
        ]
  ]
