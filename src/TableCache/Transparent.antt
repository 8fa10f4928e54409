-- ===== src/TableCache/Transparent.antt =====
-- project/table_cache.cc: what FindTable gives against the tables read from their files.
use leveldb_surf.Base.{ℕ, ◌≡◌, ◌≢◌, refl, sym, ap, ◌∙◌, Option, some, none, inl, inr}
use leveldb_surf.Filter.Policy.{Bytes, Coding}
use leveldb_surf.Table.{Result, ok, err, Format, Options, Table}
use leveldb_surf.TableCache.{CacheLib, IsCache, Files, read_table, find_table, evict}

module _ {F C : Type 0} (c : Coding) (fmt : Format F) (env : Files F)
    (lib : CacheLib C (Table F)) where
  -- Every cached table is the one that its file holds; `size` gives the size of each file.
  abbrev pub Coherent : Bytes → Options → (ℕ → ℕ) → C → Type 0
  Coherent prefix options size cache =
      (n : ℕ) (t : Table F)
      → lib.lookup cache n ≡ some t
      → read_table c fmt env prefix options n (size n) ≡ ok t

  abbrev pub Found : Bytes → Options → (ℕ → ℕ) → ℕ → Result (Table F) × C → Type 0
  Found prefix options size n found =
      (found.0 ≡ read_table c fmt env prefix options n (size n))
      × Coherent prefix options size found.1

  insert-Coherent :
      IsCache lib
      → (prefix : Bytes) (options : Options) (size : ℕ → ℕ) (cache : C) (n : ℕ) (t : Table F)
      → Coherent prefix options size cache
      → read_table c fmt env prefix options n (size n) ≡ ok t
      → Coherent prefix options size (lib.insert cache n t)
  insert-Coherent law prefix options size cache n t h e m y l =
      elim (law.lookup-insert cache n m t y l) [
        | inl (p, q) ↦ rw (sym p, sym q) e
        | inr old ↦ h m y old
      ]

  find_table-miss :
      IsCache lib
      → (prefix : Bytes) (options : Options) (size : ℕ → ℕ) (cache : C) (n : ℕ)
      → Coherent prefix options size cache
      → lib.lookup cache n ≡ none
      → (r : Result (Table F)) → read_table c fmt env prefix options n (size n) ≡ r
      → Found prefix options size n (find_table c fmt env lib prefix options cache n (size n))
  unfolding find_table
  find_table-miss law prefix options size cache n h e (ok t) q =
      rw (e, find_table, q) (refl, insert-Coherent law prefix options size cache n t h q)
  find_table-miss law prefix options size cache n h e (err s) q = rw (e, find_table, q) (refl, h)

  find_table-case :
      IsCache lib
      → (prefix : Bytes) (options : Options) (size : ℕ → ℕ) (cache : C) (n : ℕ)
      → Coherent prefix options size cache
      → (o : Option (Table F)) → lib.lookup cache n ≡ o
      → Found prefix options size n (find_table c fmt env lib prefix options cache n (size n))
  unfolding find_table
  find_table-case law prefix options size cache n h (some t) e =
      rw (e, find_table) (sym (h n t e), h)
  find_table-case law prefix options size cache n h none e =
      find_table-miss law prefix options size cache n h e
        (read_table c fmt env prefix options n (size n)) refl

  -- The cache cannot be seen from outside: if each cached table is the one in its file, then
  -- FindTable gives the table or the error that reading the file gives, and the cache stays so.
  pub find_table-Found :
      IsCache lib
      → (prefix : Bytes) (options : Options) (size : ℕ → ℕ) (cache : C) (n : ℕ)
      → Coherent prefix options size cache
      → Found prefix options size n (find_table c fmt env lib prefix options cache n (size n))
  find_table-Found law prefix options size cache n h =
      find_table-case law prefix options size cache n h (lib.lookup cache n) refl

module _ {F C : Type 0} (c : Coding) (fmt : Format F) (env after : Files F)
    (lib : CacheLib C (Table F)) where
  erased-Coherent :
      IsCache lib
      → (prefix : Bytes) (options : Options) (size size' : ℕ → ℕ) (cache : C) (n : ℕ)
      → Coherent c fmt env lib prefix options size cache
      → ((m : ℕ)
          → m ≢ n
          → read_table c fmt after prefix options m (size' m)
            ≡ read_table c fmt env prefix options m (size m))
      → Coherent c fmt after lib prefix options size' (evict lib cache n)
  unfolding evict
  erased-Coherent law prefix options size size' cache n h same m t l =
      let other : m ≢ n = λ e.
        let gone : some t ≡ none =
          sym l ∙ ap (lib.lookup (lib.erase cache n)) e ∙ law.lookup-erased cache n in
        cc in
      same m other ∙ h m t (law.lookup-erase cache n m t l)

  -- Once a file is evicted it may be replaced or removed: if the cached tables are those of the
  -- files before, and in the files after only that file differs, then FindTable after Evict gives,
  -- for every file, the table or the error that the files hold now, and the cache stays so.
  pub evict-find_table :
      IsCache lib
      → (prefix : Bytes) (options : Options) (size size' : ℕ → ℕ) (cache : C) (n : ℕ)
      → Coherent c fmt env lib prefix options size cache
      → ((m : ℕ)
          → m ≢ n
          → read_table c fmt after prefix options m (size' m)
            ≡ read_table c fmt env prefix options m (size m))
      → (m : ℕ)
      → Found c fmt after lib prefix options size' m
          (find_table c fmt after lib prefix options (evict lib cache n) m (size' m))
  evict-find_table law prefix options size size' cache n h same m =
      find_table-Found c fmt after lib law prefix options size' (evict lib cache n) m
        (erased-Coherent law prefix options size size' cache n h same)
