-- ===== src/Collector/Refers.antt =====
-- Which objects an object of elox/include/elox/object.h points to, field by field, and which are
-- roots. `blackenObject` and `markRoots` of elox/lib/memory.c follow these
-- pointers, but not all.
use mathlib.Core.List.{Memᴰ}
use mathlib.Core.List.Memᴰ
use slox.Collector.{
  Compiling, CompilerState, FiberCtx, Handle, Vm, callable_handle, compiler_refs, compiling_refs,
  fiber_refs, handle_refs, root_refs, run_ctx_handle,
}
use slox.Object.{
  MemberRef, Object, array_refs, default_refs, entries_refs, live_refs, member_value, obj_array,
  obj_bound_method, obj_class, obj_closure, obj_function, obj_hashmap, obj_instance, obj_interface,
  obj_method, obj_method_desc, obj_native, obj_native_closure, obj_string, obj_string_pair,
  obj_tuple, obj_upvalue, references, value_ref,
}
use slox.Prelude.{
  ℕ, true, false, List, [], ◌∷◌, ◌++◌, Option, none, some, ◌≡◌, refl, ap, sym, ◌⊎◌, ◌↔◌, inl, inr,
  map, take, Bool-cases,
}
use slox.Table.{Entry}
use slox.Value.{Value, bool, exception, is_undefined, nil, number, obj, undefined}
use slox.ValueTable.{TableEntry}

module _ (b : ℕ) where
  -- one of the values is the object
  abbrev pub Holds : List Value → Type 0
  Holds vs = Memᴰ (obj b) vs

  -- one of the pointers is to the object
  abbrev pub Among : List (Option ℕ) → Type 0
  Among rs = Memᴰ (some b) rs

  unfoldable pub InEntries : List Entry → Type 0
  InEntries [] = ⊥
  InEntries (e ∷ es) = (e.key ≡ some b) ⊎ (e.value ≡ obj b) ⊎ InEntries es

  -- in an entry of a map that is not deleted
  unfoldable pub InLive : List TableEntry → Type 0
  InLive [] = ⊥
  InLive (e ∷ es) =
      ((is_undefined e.key ≡ false) × ((e.key ≡ obj b) ⊎ (e.value ≡ obj b))) ⊎ InLive es

  unfoldable pub InDefaults : ℕ → Option (List Value) → Type 0
  InDefaults arity none = ⊥
  InDefaults arity (some args) = Holds (take arity args)

  -- the pointers that are followed
  unfoldable pub Refers : Object → Type 0
  unfolding InEntries InLive InDefaults
  Refers (obj_hashmap items) = InLive (take items.full_count items.entries)
  Refers (obj_tuple a) = Holds (take a.size a.items)
  Refers (obj_array a) = Holds (take a.size a.items)
  Refers (obj_bound_method receiver method) = (receiver ≡ obj b) ⊎ (method ≡ some b)
  Refers (obj_method clazz callable) = (clazz ≡ some b) ⊎ (callable ≡ some b)
  Refers (obj_method_desc arity has_varargs) = ⊥
  Refers (obj_interface name methods) =
      (name ≡ some b) ⊎ InEntries (take methods.capacity methods.entries)
  Refers (obj_class c) =
      (c.name ≡ some b)
      ⊎ (((InEntries (take c.fields.capacity c.fields.entries)
              ⊎ InEntries (take c.methods.capacity c.methods.entries))
            ⊎ InEntries (take c.statics.capacity c.statics.entries))
          ⊎ Holds (take c.static_values.count c.static_values.values))
      ⊎ (c.initializer ≡ obj b)
  Refers (obj_closure function upvalues) = (function ≡ some b) ⊎ Among upvalues
  Refers (obj_native_closure native upvalues) = Holds upvalues
  Refers (obj_function f) =
      (f.name ≡ some b)
      ⊎ (f.parent_class ≡ some b)
      ⊎ Holds (take f.chunk.constants.count f.chunk.constants.values)
      ⊎ (f.chunk.file_name ≡ some b)
      ⊎ InDefaults f.arity f.default_args
  Refers (obj_instance clazz fields) = (clazz ≡ some b) ⊎ Holds (take fields.count fields.values)
  Refers (obj_upvalue closed) = closed ≡ obj b
  Refers (obj_string_pair str1 str2) = (str1 ≡ some b) ⊎ (str2 ≡ some b)
  Refers (obj_native native) = InDefaults native.arity native.default_args
  Refers (obj_string chars hash) = ⊥

  unfoldable InMembers : List MemberRef → Type 0
  InMembers [] = ⊥
  InMembers (member_value v ∷ rs) = (v ≡ obj b) ⊎ InMembers rs
  InMembers (_ ∷ rs) = InMembers rs

  unfoldable InList : Option (List (Option ℕ)) → Type 0
  InList none = ⊥
  InList (some rs) = Among rs

  -- the pointers that are not followed: of a class its superclass, the methods for hashing and
  -- equality, the type information and the member references, and of a native closure the defaults
  unfoldable pub Skipped : Object → Type 0
  unfolding InDefaults InMembers InList
  Skipped (obj_class c) =
      (c.super ≡ obj b)
      ⊎ (c.hash_code ≡ some b)
      ⊎ (c.equals ≡ some b)
      ⊎ Among c.rpt_display
      ⊎ InList c.rss_list
      ⊎ InMembers c.member_refs
  Skipped (obj_native_closure native upvalues) = InDefaults native.arity native.default_args
  Skipped _ = ⊥

  unfoldable pub InFiber : Option FiberCtx → Type 0
  InFiber none = ⊥
  InFiber (some f) =
      ((Holds f.stack ⊎ Among f.frame_functions) ⊎ Memᴰ b f.open_upvalues) ⊎ Holds f.temps

  unfoldable pub InCompiling : List Compiling → Type 0
  InCompiling [] = ⊥
  InCompiling (c ∷ cs) = (c.function ≡ some b) ⊎ Holds c.default_args ⊎ InCompiling cs

  unfoldable pub InCompilers : List CompilerState → Type 0
  unfolding InCompiling
  InCompilers [] = ⊥
  InCompilers (s ∷ ss) = (s.file_name ≡ some b) ⊎ InCompiling s.compilers ⊎ InCompilers ss

  unfoldable pub InHandles : List Handle → Type 0
  unfolding InFiber
  InHandles [] = ⊥
  InHandles (callable_handle callable ∷ hs) = (callable ≡ obj b) ⊎ InHandles hs
  InHandles (run_ctx_handle fiber ∷ hs) = InFiber fiber ⊎ InHandles hs

  -- the roots: the first fiber, the globals with their names, the functions that are being compiled,
  -- and the handles of the embedding program
  abbrev pub IsRoot : Vm → Type 0
  IsRoot vm =
      (((InFiber vm.init_fiber ⊎ InLive (take vm.global_names.full_count vm.global_names.entries))
          ⊎ Holds (take vm.global_values.count vm.global_values.values))
        ⊎ InCompilers vm.compiler_states)
      ⊎ InHandles vm.handles

  -- the pointers of a part are the ones that the collector lists
  abbrev Lists : Type 0 → List (Option ℕ) → Type 0
  Lists P rs = P ↔ Among rs

  none-Lists : Lists ⊥ []
  none-Lists = (λ x. absurd x, λ m. Memᴰ.not-nil m)

  one-Lists : (r : Option ℕ) → Lists (r ≡ some b) (r ∷ [])
  one-Lists r = (λ e. Memᴰ.head (sym e), λ m. sym (Memᴰ.eq_of_singleton m))

  value_ref-obj : (v : Value) → value_ref v ≡ some b → v ≡ obj b
  unfolding value_ref
  value_ref-obj (obj a) e = cc
  value_ref-obj (number n) e = absurd cc
  value_ref-obj nil e = absurd cc
  value_ref-obj (bool x) e = absurd cc
  value_ref-obj exception e = absurd cc
  value_ref-obj undefined e = absurd cc

  obj-value_ref : (v : Value) → v ≡ obj b → value_ref v ≡ some b
  unfolding value_ref
  obj-value_ref v e = ap value_ref e

  cons-Lists :
      {P : Type 0} (r : Option ℕ) (rs : List (Option ℕ))
      → Lists P rs
      → Lists ((r ≡ some b) ⊎ P) (r ∷ rs)
  cons-Lists {P} r rs (to, from) = (forth, λ m. back (Memᴰ.cases_cons m))
    where
      forth : (r ≡ some b) ⊎ P → Among (r ∷ rs)
      forth (inl e) = Memᴰ.head (sym e)
      forth (inr p) = Memᴰ.tail (to p)

      back : (some b ≡ r) ⊎ Among rs → (r ≡ some b) ⊎ P
      back (inl e) = inl (sym e)
      back (inr m) = inr (from m)

  value-Lists :
      {P : Type 0} (v : Value) (rs : List (Option ℕ))
      → Lists P rs
      → Lists ((v ≡ obj b) ⊎ P) (value_ref v ∷ rs)
  value-Lists {P} v rs h =
      let (to, from) = cons-Lists (value_ref v) rs h in (λ x. to (forth x), λ m. back (from m))
    where
      forth : (v ≡ obj b) ⊎ P → (value_ref v ≡ some b) ⊎ P
      forth (inl e) = inl (obj-value_ref v e)
      forth (inr p) = inr p

      back : (value_ref v ≡ some b) ⊎ P → (v ≡ obj b) ⊎ P
      back (inl e) = inl (value_ref-obj v e)
      back (inr p) = inr p

  append-Lists :
      {P Q : Type 0} (rs ss : List (Option ℕ)) → Lists P rs → Lists Q ss → Lists (P ⊎ Q) (rs ++ ss)
  append-Lists {P} {Q} rs ss (to, from) (to', from') = (forth, λ m. back (Memᴰ.append_cases rs m))
    where
      forth : P ⊎ Q → Among (rs ++ ss)
      forth (inl p) = Memᴰ.append_left ss (to p)
      forth (inr q) = Memᴰ.append_right rs (to' q)

      back : Among rs ⊎ Among ss → P ⊎ Q
      back (inl m) = inl (from m)
      back (inr m) = inr (from' m)

  one_value-Lists : (v : Value) → Lists (v ≡ obj b) (value_ref v ∷ [])
  one_value-Lists v =
      let (to, from) = one-Lists (value_ref v) in
      (λ e. to (obj-value_ref v e), λ m. value_ref-obj v (from m))

  values_cons-Lists :
      (v : Value) (vs : List Value)
      → Lists (Holds vs) (map value_ref vs)
      → Lists (Holds (v ∷ vs)) (map value_ref (v ∷ vs))
  values_cons-Lists v vs (to, from) =
      (λ m. forth (Memᴰ.cases_cons m), λ m. back (Memᴰ.cases_cons m))
    where
      forth : (obj b ≡ v) ⊎ Holds vs → Among (value_ref v ∷ map value_ref vs)
      forth (inl e) = Memᴰ.head (sym (obj-value_ref v (sym e)))
      forth (inr m) = Memᴰ.tail (to m)

      back : (some b ≡ value_ref v) ⊎ Among (map value_ref vs) → Holds (v ∷ vs)
      back (inl e) = Memᴰ.head (sym (value_ref-obj v (sym e)))
      back (inr m) = Memᴰ.tail (from m)

  values-Lists : (vs : List Value) → Lists (Holds vs) (map value_ref vs)
  values-Lists [] = (λ m. absurd (Memᴰ.not-nil m), λ m. absurd (Memᴰ.not-nil m))
  values-Lists (v ∷ vs) = values_cons-Lists v vs (values-Lists vs)

  addresses-Lists : (l : List ℕ) → Lists (Memᴰ b l) (map (λ a. some a) l)
  addresses-Lists l = (λ m. Memᴰ.map (λ a. some a) m, λ m. back (Memᴰ.of_map (λ a. some a) l m))
    where
      back : (a : ℕ) × Memᴰ a l × (some a ≡ some b) → Memᴰ b l
      back (a, m, e) = let s : b ≡ a = cc in Memᴰ.cast s m

  entries-Lists : (es : List Entry) → Lists (InEntries es) (entries_refs es)
  unfolding InEntries entries_refs
  entries-Lists [] = none-Lists
  entries-Lists (e ∷ es) =
      cons-Lists e.key (value_ref e.value ∷ entries_refs es)
        (value-Lists e.value (entries_refs es) (entries-Lists es))

  live_cons-Lists :
      (e : TableEntry) (es : List TableEntry)
      → Lists (InLive es) (live_refs es)
      → Lists (InLive (e ∷ es)) (live_refs (e ∷ es))
  unfolding InLive live_refs
  live_cons-Lists e es (to, from) = elim (Bool-cases (is_undefined e.key)) [
    | inl d ↦ rw d (forth_dead, λ m. inr (from m))
    | inr l ↦ rw l (
      forth_live,
      λ m. back (
          (value-Lists e.key (value_ref e.value ∷ live_refs es)
              (value-Lists e.value (live_refs es) (to, from))).1
            m),
    )
  ]
    where
      forth_dead :
          ((true ≡ false) × ((e.key ≡ obj b) ⊎ (e.value ≡ obj b))) ⊎ InLive es
          → Among (live_refs es)
      forth_dead (inl (f, x)) = absurd cc
      forth_dead (inr m) = to m

      forth_live :
          ((false ≡ false) × ((e.key ≡ obj b) ⊎ (e.value ≡ obj b))) ⊎ InLive es
          → Among (value_ref e.key ∷ value_ref e.value ∷ live_refs es)
      forth_live (inl (f, inl k)) = Memᴰ.head (sym (obj-value_ref e.key k))
      forth_live (inl (f, inr v)) = Memᴰ.tail (Memᴰ.head (sym (obj-value_ref e.value v)))
      forth_live (inr m) = Memᴰ.tail (Memᴰ.tail (to m))

      back :
          (e.key ≡ obj b) ⊎ (e.value ≡ obj b) ⊎ InLive es
          → ((false ≡ false) × ((e.key ≡ obj b) ⊎ (e.value ≡ obj b))) ⊎ InLive es
      back (inl k) = inl (refl, inl k)
      back (inr (inl v)) = inl (refl, inr v)
      back (inr (inr m)) = inr m

  live-Lists : (es : List TableEntry) → Lists (InLive es) (live_refs es)
  unfolding InLive live_refs
  live-Lists [] = none-Lists
  live-Lists (e ∷ es) = live_cons-Lists e es (live-Lists es)

  defaults-Lists :
      (arity : ℕ) (args : Option (List Value))
      → Lists (InDefaults arity args) (default_refs arity args)
  unfolding InDefaults default_refs
  defaults-Lists arity none = none-Lists
  defaults-Lists arity (some args) = values-Lists (take arity args)

  -- The collector lists the pointers that it follows, and no others.
  pub Refers-references : (o : Object) → Refers o ↔ Among (references o)
  unfolding Refers references array_refs
  Refers-references (obj_hashmap items) = live-Lists _
  Refers-references (obj_tuple a) = values-Lists _
  Refers-references (obj_array a) = values-Lists _
  Refers-references (obj_bound_method receiver method) =
      value-Lists receiver (method ∷ []) (one-Lists method)
  Refers-references (obj_method clazz callable) =
      cons-Lists clazz (callable ∷ []) (one-Lists callable)
  Refers-references (obj_method_desc arity has_varargs) = none-Lists
  Refers-references (obj_interface name methods) = cons-Lists name _ (entries-Lists _)
  Refers-references (obj_class c) = cons-Lists c.name _ (
      append-Lists _ _
        (append-Lists _ _
          (append-Lists _ _ (append-Lists _ _ (entries-Lists _) (entries-Lists _))
            (entries-Lists _))
          (values-Lists _))
        (one_value-Lists c.initializer))
  Refers-references (obj_closure function upvalues) = cons-Lists function upvalues (λ m. m, λ m. m)
  Refers-references (obj_native_closure native upvalues) = values-Lists upvalues
  Refers-references (obj_function f) = cons-Lists f.name _ (
      cons-Lists f.parent_class _ (
        append-Lists _ _ (values-Lists _)
          (cons-Lists f.chunk.file_name _ (defaults-Lists f.arity f.default_args))))
  Refers-references (obj_instance clazz fields) = cons-Lists clazz _ (values-Lists _)
  Refers-references (obj_upvalue closed) = one_value-Lists closed
  Refers-references (obj_string_pair str1 str2) = cons-Lists str1 _ (one-Lists str2)
  Refers-references (obj_native native) = defaults-Lists native.arity native.default_args
  Refers-references (obj_string chars hash) = none-Lists

  fiber-Lists : (f : Option FiberCtx) → Lists (InFiber f) (fiber_refs f)
  unfolding InFiber fiber_refs
  fiber-Lists none = none-Lists
  fiber-Lists (some f) =
      append-Lists _ _
        (append-Lists _ _ (append-Lists _ _ (values-Lists f.stack) (λ m. m, λ m. m))
          (addresses-Lists f.open_upvalues))
        (values-Lists f.temps)

  compiling-Lists : (cs : List Compiling) → Lists (InCompiling cs) (compiling_refs cs)
  unfolding InCompiling compiling_refs
  compiling-Lists [] = none-Lists
  compiling-Lists (c ∷ cs) =
      cons-Lists c.function _ (append-Lists _ _ (values-Lists c.default_args) (compiling-Lists cs))

  compilers-Lists : (ss : List CompilerState) → Lists (InCompilers ss) (compiler_refs ss)
  unfolding InCompilers compiler_refs
  compilers-Lists [] = none-Lists
  compilers-Lists (s ∷ ss) =
      cons-Lists s.file_name _ (append-Lists _ _ (compiling-Lists s.compilers) (compilers-Lists ss))

  handles-Lists : (hs : List Handle) → Lists (InHandles hs) (handle_refs hs)
  unfolding InHandles handle_refs
  handles-Lists [] = none-Lists
  handles-Lists (callable_handle callable ∷ hs) = value-Lists callable _ (handles-Lists hs)
  handles-Lists (run_ctx_handle fiber ∷ hs) =
      append-Lists _ _ (fiber-Lists fiber) (handles-Lists hs)

  -- `markRoots` marks the roots, and nothing else.
  pub IsRoot-root_refs : (vm : Vm) → IsRoot vm ↔ Among (root_refs vm)
  unfolding root_refs array_refs
  IsRoot-root_refs vm =
      append-Lists _ _
        (append-Lists _ _
          (append-Lists _ _ (append-Lists _ _ (fiber-Lists vm.init_fiber) (live-Lists _))
            (values-Lists _))
          (compilers-Lists vm.compiler_states))
        (handles-Lists vm.handles)
