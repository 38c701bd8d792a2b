-- ===== src/Strings/Interned.antt =====
-- Interning, `takeString` and `copyString` of elox/lib/object.c.
use slox.Memory.{grow_capacity}
use slox.Prelude.{
  ℕ, ◌+◌, ◌*◌, ◌^◌, ◌<◌, Bool, true, false, List, Option, none, some, ◌≡◌, ◌≢◌, refl, sym, ap, ◌∙◌,
  subst, ◌⊎◌, ◌↔◌, inl, inr, arith, length, ◌==◌, ==_iff, if◌then◌else◌, Bool-cases, ◌>>=◌,
}
use slox.Strings.{
  Memory, Strings, allocate_string, copy_string, hash_string, or_allocate, put_string, registered,
  take_string, with_string,
}
use slox.Table.Growth.{Valid}
use slox.Table.Keys.{IsKey, Valid-heap, kept-IsKey, known-IsKey, stored-IsKey}
use slox.Table.Map.{Updated}
use slox.Table.Search.{Finds, table_find_string-Finds}
use slox.Table.Update.{table_set-Sets}
use slox.Table.{StringObject, Table, table_find_string}
use slox.Value.{nil}

-- interned, by its address
abbrev pub In : Strings → ℕ → Type 0
In s k = IsKey s.strings k

-- no two interned strings have the same bytes, and each has the hash of its bytes
pub record Interned (s : Strings) : Type 0 where
  pub valid : Valid s.heap s.strings
  pub below : (k : ℕ) → In s k → k < s.fresh
  pub hashed : (k : ℕ) → In s k → (s.heap k).hash ≡ hash_string (s.heap k).chars
  pub once : (k l : ℕ) → In s k → In s l → (s.heap k).chars ≡ (s.heap l).chars → k ≡ l

-- the memory has no room for the string's object, or for a larger table of strings where one more
-- string needs it
abbrev pub Refused : Memory → Strings → Type 0
Refused memory s =
    (memory.object_fits ≡ false)
    ⊎ (s.strings.capacity * 3 < (s.strings.count + 1) * 4)
      × (memory.alloc (grow_capacity s.strings.capacity) ≡ false)

-- what a call for the bytes `chars` answers, and does to the strings; without an object only for the
-- reason `why`
pub record Interns (why : Type 0) (chars : List ℕ) (s : Strings) (r : Option ℕ) (t : Strings)
    : Type 0 where
  pub fit : Interned t
  pub kept : (k : ℕ) → In s k → In t k × (t.heap k ≡ s.heap k)
  pub nothing_else : (k : ℕ) → In t k → (r ≡ some k) ⊎ In s k
  pub gives : (a : ℕ) → r ≡ some a → In t a × ((t.heap a).chars ≡ chars)
  pub new : (a : ℕ) → r ≡ some a → In s a ⊎ (a ≡ s.fresh)
  pub fails : r ≡ none → why
  pub known : (k : ℕ) → In s k → (s.heap k).chars ≡ chars → (r ≡ some k) × (t ≡ s)

put_self : (heap : ℕ → StringObject) (a : ℕ) (o : StringObject) → put_string heap a o a ≡ o
put_self heap a o = rw ((==_iff a a).1 refl) refl

put_ne :
    (heap : ℕ → StringObject) (a : ℕ) (o : StringObject) (x : ℕ)
    → x ≢ a
    → put_string heap a o x ≡ heap x
put_ne heap a o x d = elim (Bool-cases (x == a)) [
  | inl e ↦ absurd (d ((==_iff x a).0 e))
  | inr e ↦ rw e refl
]

-- bytes that are interned already
found-Interns :
    (why : Type 0) (chars : List ℕ) (s : Strings) (a : ℕ)
    → Interned s
    → In s a
    → (s.heap a).chars ≡ chars
    → Interns why chars s (some a) s
found-Interns why chars s a v here e = record {
  fit = v;
  kept = λ k h. (h, refl);
  nothing_else = λ k h. inr h;
  gives =
      λ b f. let g : a ≡ b = cc in (subst (In s) g here, ap (λ x. (s.heap x).chars) (sym g) ∙ e);
  new = λ b f. inl (let g : a ≡ b = cc in subst (In s) g here);
  fails = λ f. absurd (let g : some a ≡ none = f in cc);
  known = λ k h f. (ap some (v.once a k here h (e ∙ sym f)), refl);
}

-- the memory ran out before the table was touched
refused-Interns :
    (why : Type 0) (chars : List ℕ) (s : Strings)
    → Interned s
    → ((k : ℕ) → In s k → (s.heap k).chars ≢ chars)
    → why
    → Interns why chars s none s
refused-Interns why chars s v n reason = record {
  fit = v;
  kept = λ k h. (h, refl);
  nothing_else = λ k h. inr h;
  gives = λ b f. absurd (let g : none ≡ some b = f in cc);
  new = λ b f. absurd (let g : none ≡ some b = f in cc);
  fails = λ f. reason;
  known = λ k h f. absurd (n k h f);
}

-- the call ends, with an answer that is right
abbrev pub Ends : Type 0 → List ℕ → Strings → Option (Option ℕ × Strings) → Type 0
Ends why chars s q = (r : Option ℕ) × (w : Strings) × (q ≡ some (r, w)) × Interns why chars s r w

module _ (why : Type 0) (memory : Memory) (chars : List ℕ) (s : Strings) (v : Interned s)
    (absent : (k : ℕ) → In s k → (s.heap k).chars ≢ chars) where
  -- the state with the new object, not registered yet
  abbrev t : Strings
  t = with_string s chars (hash_string chars)

  old : (k : ℕ) → In s k → t.heap k ≡ s.heap k
  old k h = let l = v.below k h in put_ne s.heap s.fresh _ k (omega (arith, l))

  new_chars : (t.heap s.fresh).chars ≡ chars
  new_chars = ap (λ o. o.chars) (put_self s.heap s.fresh _)

  new_hash : (t.heap s.fresh).hash ≡ hash_string chars
  new_hash = ap (λ o. o.hash) (put_self s.heap s.fresh _)

  valid : Valid t.heap s.strings
  valid = Valid-heap s.heap t.heap s.strings old v.valid

  lost-Interns : why → Interns why chars s none t
  lost-Interns reason = record {
    fit = record {
      valid = valid;
      below = λ k h. (let l = v.below k h in omega (arith, l));
      hashed = λ k h.
          ap (λ o. o.hash) (old k h)
          ∙ (v.hashed k h ∙ ap (λ o. hash_string o.chars) (sym (old k h)));
      once = λ k l h h' e.
          v.once k l h h' (ap (λ o. o.chars) (sym (old k h)) ∙ (e ∙ ap (λ o. o.chars) (old l h')));
    };
    kept = λ k h. (h, old k h);
    nothing_else = λ k h. inr h;
    gives = λ b f. absurd (let g : none ≡ some b = f in cc);
    new = λ b f. absurd (let g : none ≡ some b = f in cc);
    fails = λ f. reason;
    known = λ k h f. absurd (absent k h f);
  }

  module _ (u : Table) (new : Bool) (m : Updated t.heap s.strings s.fresh nil new u) where
    abbrev after : Strings
    after = record t { strings = u }

    sort : (k : ℕ) → In after k → (k ≡ s.fresh) ⊎ In s k
    sort k h = known-IsKey t.heap s.strings u s.fresh nil new valid m k h

    fresh_once : (l : ℕ) → In s l → (t.heap s.fresh).chars ≡ (t.heap l).chars → ⊥
    fresh_once l h e = absent l h (ap (λ o. o.chars) (sym (old l h)) ∙ (sym e ∙ new_chars))

    stored-Interns : Interns why chars s (some s.fresh) after
    stored-Interns = record {
      fit = record {
        valid = m.valid;
        below = λ k h. elim (sort k h) [
          | inl e ↦ omega (arith, e)
          | inr h' ↦ (let l = v.below k h' in omega (arith, l))
        ];
        hashed = λ k h. elim (sort k h) [
          | inl e ↦ rw e (new_hash ∙ ap hash_string (sym new_chars))
          | inr h' ↦
              ap (λ o. o.hash) (old k h')
              ∙ (v.hashed k h' ∙ ap (λ o. hash_string o.chars) (sym (old k h')))
        ];
        once = λ k l h h' e. elim (sort k h) [
          | inl a ↦ elim (sort l h') [
            | inl b ↦ a ∙ sym b
            | inr b ↦ absurd (fresh_once l b (ap (λ x. (t.heap x).chars) (sym a) ∙ e))
          ]
          | inr a ↦ elim (sort l h') [
            | inl b ↦ absurd (fresh_once k a (ap (λ x. (t.heap x).chars) (sym b) ∙ sym e))
            | inr b ↦
                v.once k l a b
                  (ap (λ o. o.chars) (sym (old k a)) ∙ (e ∙ ap (λ o. o.chars) (old l b)))
          ]
        ];
      };
      kept = λ k h. (kept-IsKey t.heap s.strings u s.fresh nil new valid m k h, old k h);
      nothing_else = λ k h. elim (sort k h) [ inl e ↦ inl (ap some (sym e)) | inr h' ↦ inr h' ];
      gives = λ b f.
          let g : s.fresh ≡ b = cc in
          (
            subst (In after) g (stored-IsKey t.heap s.strings u s.fresh nil new valid m),
            ap (λ x. (t.heap x).chars) (sym g) ∙ new_chars,
          );
      new = λ b f. inr (let g : s.fresh ≡ b = cc in sym g);
      fails = λ f. absurd (let g : some s.fresh ≡ none = f in cc);
      known = λ k h f. absurd (absent k h f);
    }

  allocate_string-Ends :
      memory.alloc (2 ^ 31) ≡ false
      → (Refused memory s → why)
      → Ends why chars s (allocate_string memory chars (hash_string chars) s)
  unfolding allocate_string registered
  allocate_string-Ends limit reason = elim (Bool-cases memory.object_fits) [
    | inr e ↦ rw e (none, s, refl, refused-Interns why chars s v absent (reason (inl e)))
    | inl e ↦ elim (table_set-Sets t.heap memory.alloc s.strings s.fresh nil valid limit) [
      | inl (run, full, a) ↦ rw (e, run) (none, t, refl, lost-Interns (reason (inr (full, a))))
      | inr (new, u, run, m) ↦
          rw (e, run) (some s.fresh, record t { strings = u }, refl, stored-Interns u new m)
    ]
  ]

module _ (why : Type 0) (chars : List ℕ) (s : Strings) (v : Interned s) where
  -- the search, then what is done if it finds nothing
  searched-Ends :
      (allocate : Strings → Option (Option ℕ × Strings))
      → (((k : ℕ) → In s k → (s.heap k).chars ≢ chars) → Ends why chars s (allocate s))
      → Ends why chars s
          (table_find_string s.heap s.strings chars (hash_string chars) >>= or_allocate allocate s)
  unfolding or_allocate
  searched-Ends allocate h =
      let (r, run, f) =
        table_find_string-Finds s.heap chars (hash_string chars) s.strings v.valid in
      subst (Ends why chars s) (sym (ap (λ q. q >>= or_allocate allocate s) run)) (answer r f)
    where
      answer :
          (r : Option ℕ)
          → Finds s.heap chars (hash_string chars) s.strings r
          → Ends why chars s (or_allocate allocate s r)
      answer none f = h (λ k (i, e) c. f i k e (c, v.hashed k (i, e) ∙ ap hash_string c))
      answer (some a) (m, here) = (some a, s, refl, found-Interns why chars s a v here m.0)

module _ (chars : List ℕ) (s : Strings) (v : Interned s) where
  -- For strings that are interned once each, and a memory that has no room for a table of 2^31
  -- entries, `takeString` ends, and keeps them so. If an interned string has the bytes, that one is
  -- given and nothing is changed. Otherwise a new object is given, unless the memory refuses it: there is
  -- none only if the object has no room, or if the table of strings has to grow and the larger array is
  -- refused. An object that is given is interned and has the bytes. The strings that were interned stay
  -- as they were, and no other string becomes interned.
  pub take_string-Interns :
      (memory : Memory)
      → memory.alloc (2 ^ 31) ≡ false
      → Ends (Refused memory s) chars s (take_string memory chars s)
  unfolding take_string
  take_string-Interns memory limit =
      searched-Ends (Refused memory s) chars s v (allocate_string memory chars (hash_string chars))
        (λ absent. allocate_string-Ends (Refused memory s) memory chars s v absent limit (λ r. r))

  -- no room for a copy of the bytes and their terminator, or as for `takeString`
  abbrev pub CopyRefused : Memory → Type 0
  CopyRefused memory = (memory.chars_fit (length chars + 1) ≡ false) ⊎ Refused memory s

  -- For strings that are interned once each, and a memory that has no room for a table of 2^31
  -- entries, `copyString` ends, and keeps them so. If an interned string has the bytes, that one is
  -- given and nothing is changed. Otherwise a new object is given, unless the memory refuses it: there is
  -- none only if the copy of the bytes or the object has no room, or if the table of strings has to grow
  -- and the larger array is refused. An object that is given is interned and has the bytes. The strings
  -- that were interned stay as they were, and no other string becomes interned.
  pub copy_string-Interns :
      (memory : Memory)
      → memory.alloc (2 ^ 31) ≡ false
      → Ends (CopyRefused memory) chars s (copy_string memory chars s)
  unfolding copy_string
  copy_string-Interns memory limit =
      searched-Ends (CopyRefused memory) chars s v
        (λ t.
          if memory.chars_fit (length chars + 1)
          then allocate_string memory chars (hash_string chars) t
          else some (none, t))
        (λ absent. copied absent (memory.chars_fit (length chars + 1)) refl)
    where
      copied :
          ((k : ℕ) → In s k → (s.heap k).chars ≢ chars)
          → (b : Bool) → memory.chars_fit (length chars + 1) ≡ b
          → Ends
              (CopyRefused memory)
              chars
              s
              (if b then allocate_string memory chars (hash_string chars) s else some (none, s))
      copied absent true e =
          allocate_string-Ends (CopyRefused memory) memory chars s v absent limit (λ r. inr r)
      copied absent false e =
          (none, s, refl, refused-Interns (CopyRefused memory) chars s v absent (inl e))

some_pair :
    {r r' : Option ℕ} {s s' : Strings}
    → ◌≡◌ {A = Option (Option ℕ × Strings)} (some (r, s)) (some (r', s'))
    → (r ≡ r') × (s ≡ s')
some_pair e = (cc, cc)

-- For strings that are interned once each, and a memory that has no room for a table of 2^31 entries:
-- if `copyString` gives an object for one text and then one for another, the two are the same object
-- exactly if the texts are the same.
pub copy_string_iff :
    (memory : Memory) (s t u : Strings) (chars chars' : List ℕ) (a b : ℕ)
    → Interned s
    → memory.alloc (2 ^ 31) ≡ false
    → copy_string memory chars s ≡ some (some a, t)
    → copy_string memory chars' t ≡ some (some b, u)
    → (a ≡ b) ↔ (chars ≡ chars')
copy_string_iff memory s t u chars chars' a b v limit first second =
    let (r, w, run, i) = copy_string-Interns chars s v memory limit in
    let (er, ew) = some_pair (sym run ∙ first) in
    let fit = subst Interned ew i.fit in
    let (here, same) = i.gives a er in
    let here' = subst (λ s. In s a) ew here in
    let same' = subst (λ s. (s.heap a).chars ≡ chars) ew same in
    let (r', w', run', i') = copy_string-Interns chars' t fit memory limit in
    let (er', ew') = some_pair (sym run' ∙ second) in
    (
      λ e.
          sym same'
          ∙ (ap (λ o. o.chars) (sym (i'.kept a here').1)
              ∙ (ap (λ x. (w'.heap x).chars) e ∙ (i'.gives b er').1)),
      λ e. (let f : some b ≡ some a = sym er' ∙ (i'.known a here' (same' ∙ e)).0 in cc),
    )
