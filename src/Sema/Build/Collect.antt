-- ===== src/Sema/Build/Collect.antt =====
-- src/sema.rs: the walks keep the builder's invariants.
use pbpp.Prelude.{
  ℕ, suc, ◌≡◌, refl, subst, Bool, true, false, Option, none, some, List, [], ◌∷◌, arith, length,
  Result, ok, ◌>>=◌, >>=-eq-ok,
}
use pbpp.Cst.{Item}
use pbpp.Cst.Nodes.{DottedPath}
use pbpp.Cst.Decls.{
  TypeRef, Field, OneofItem, Enum, EnumItem, Message, MsgItem, MsgItems, message_of, no_items, cons,
  Service, SvcItem, Rpc,
}
use pbpp.Sema.Kind.{SymKind, is_def}
use pbpp.Sema.Build.{SemaError, Scope, Builder, Added}
use pbpp.Sema.Build.Walk.{
  push_ref, push_type, walk_field, walk_fields, walk_values, walk_enum, walk_message, walk_items,
  walk_item, walk_rpcs, walk_service, push_top, walk_top, walk_tops,
}
use pbpp.Sema.Build.Invariant.{at, push-IsBuilt}
use pbpp.Sema.Build.Register.{
  Kept-self, Inside, Inside-Kept, Built, Kept, Kept-trans, IsAdded, add_symbol_then,
}

-- A definition just registered.
defined_now :
    (b : Builder) (kind : SymKind) (parent : Option ℕ) (a : Added)
    → is_def kind ≡ true
    → IsAdded b kind parent a
    → Inside a.builder a.inner (some a.id)
defined_now b kind parent a d i = ((omega (arith, i.newest), rw i.kind_is d), i.scope_in)

-- A reference of the symbol registered last, which stands in a definition.
push_ref-Kept :
    (owner file : ℕ) (path : DottedPath) (message_only : Bool) (b : Builder) (p : ℕ)
    → suc owner ≡ length b.sema.symbols
    → (at b.sema.symbols owner).parent ≡ some p
    → Built b
    → Kept b (push_ref owner file path message_only b)
unfolding push_ref
push_ref-Kept owner file path message_only b p newest inside built =
    let same = Kept-self b built in
    record {
      built = (
        push-IsBuilt b.sema.symbols b.sema.ns_nodes b.pending _ p newest inside built.0,
        built.1,
        built.2,
      );
      grows = same.grows;
      longer = same.longer;
      extends = same.extends;
    }

push_type-Kept :
    (owner file : ℕ) (ty : TypeRef) (b : Builder) (p : ℕ)
    → suc owner ≡ length b.sema.symbols
    → (at b.sema.symbols owner).parent ≡ some p
    → Built b
    → Kept b (push_type owner file ty b)
unfolding push_type
push_type-Kept owner file (TypeRef.scalar w) b p newest inside built = Kept-self b built
push_type-Kept owner file (TypeRef.named path) b p newest inside built =
    push_ref-Kept owner file path false b p newest inside built
push_type-Kept owner file (TypeRef.map_type key (TypeRef.named path) s) b p newest inside built =
    push_ref-Kept owner file path false b p newest inside built
push_type-Kept owner file (TypeRef.map_type key (TypeRef.scalar w) s) b p newest inside built =
    Kept-self b built
push_type-Kept owner file (TypeRef.map_type key (TypeRef.map_type k v t) s) b p newest inside
      built =
    Kept-self b built

module _ (file : ℕ) where
  walk_field-Kept :
      (f : Field) (scope : Scope) (parent : ℕ) (b b' : Builder)
      → Inside b scope (some parent)
      → Built b
      → walk_field file f scope parent b ≡ ok b'
      → Kept b b'
  unfolding walk_field
  walk_field-Kept f scope parent b b' d built h =
      let (a, i, rest) =
        add_symbol_then file SymKind.field scope f.name f.meta.id (some parent) _ _ b b' d built
          h in
      let done : push_type a.id file f.ty a.builder ≡ b' = cc in
      Kept-trans b a.builder b' i.kept (
        subst (Kept a.builder) done
          (push_type-Kept a.id file f.ty a.builder parent i.newest i.parent_is i.kept.built))

  walk_fields-Kept :
      (is : List OneofItem) (scope : Scope) (parent : ℕ) (b b' : Builder)
      → Inside b scope (some parent)
      → Built b
      → walk_fields file is scope parent b ≡ ok b'
      → Kept b b'
  unfolding walk_fields
  walk_fields-Kept [] scope parent b b' d built h =
      let e : b ≡ b' = cc in subst (Kept b) e (Kept-self b built)
  walk_fields-Kept (OneofItem.option o ∷ is) scope parent b b' d built h =
      walk_fields-Kept is scope parent b b' d built h
  walk_fields-Kept (OneofItem.field f ∷ is) scope parent b b' d built h =
      let (c, e, r) = >>=-eq-ok (walk_field file f scope parent b) _ h in
      let k = walk_field-Kept f scope parent b c d built e in
      Kept-trans b c b' k
        (walk_fields-Kept is scope parent c b' (Inside-Kept b c scope (some parent) k d) k.built r)

  walk_values-Kept :
      (is : List EnumItem) (scope : Scope) (parent : ℕ) (b b' : Builder)
      → Inside b scope (some parent)
      → Built b
      → walk_values file is scope parent b ≡ ok b'
      → Kept b b'
  unfolding walk_values
  walk_values-Kept [] scope parent b b' d built h =
      let e : b ≡ b' = cc in subst (Kept b) e (Kept-self b built)
  walk_values-Kept (EnumItem.option o ∷ is) scope parent b b' d built h =
      walk_values-Kept is scope parent b b' d built h
  walk_values-Kept (EnumItem.reserved s ∷ is) scope parent b b' d built h =
      walk_values-Kept is scope parent b b' d built h
  walk_values-Kept (EnumItem.value v ∷ is) scope parent b b' d built h =
      let (a, i, rest) =
        add_symbol_then file SymKind.enum_value scope v.name v.meta.id (some parent) _ _ b b' d
          built h in
      Kept-trans b a.builder b' i.kept (
        walk_values-Kept is scope parent a.builder b'
          (Inside-Kept b a.builder scope (some parent) i.kept d) i.kept.built rest)

  -- The end of the walk of a definition: the body's builder is returned.
  body_Kept :
      (b : Builder) (kind : SymKind) (parent : Option ℕ) (a : Added) (r : ℕ × Builder)
      (body : Result SemaError Builder)
      → IsAdded b kind parent a
      → ((c : Builder) → body ≡ ok c → Kept a.builder c)
      → (body >>= λ c. ok (a.id, c)) ≡ ok r
      → Kept b r.1
  body_Kept b kind parent a r body i k h =
      let (c, e, last) = >>=-eq-ok body _ h in
      let same : c ≡ r.1 = cc in subst (Kept b) same (Kept-trans b a.builder c i.kept (k c e))

  walk_enum-Kept :
      (x : Enum) (scope : Scope) (parent : Option ℕ) (b : Builder) (r : ℕ × Builder)
      → Inside b scope parent
      → Built b
      → walk_enum file x scope parent b ≡ ok r
      → Kept b r.1
  unfolding walk_enum is_def
  walk_enum-Kept x scope parent b r d built h =
      let (a, i, rest) =
        add_symbol_then file SymKind.enum scope x.name x.meta.id parent none _ b r d built h in
      body_Kept b SymKind.enum parent a r _ i
        (λ c e.
          walk_values-Kept x.body.items a.inner a.id a.builder c
            (defined_now b SymKind.enum parent a refl i) i.kept.built e)
        rest

  -- What follows on a nested definition.
  nested_Kept :
      (b b' : Builder) (walked : Result SemaError (ℕ × Builder))
      → ((r : ℕ × Builder) → walked ≡ ok r → Kept b r.1)
      → (walked >>= λ r. ok r.1) ≡ ok b'
      → Kept b b'
  nested_Kept b b' walked k h =
      let (r, e, last) = >>=-eq-ok walked _ h in
      let same : r.1 ≡ b' = cc in subst (Kept b) same (k r e)

  mutual
    unfolding walk_message is_def

    walk_message-Kept :
        (x : Message) (scope : Scope) (parent : Option ℕ) (b : Builder) (r : ℕ × Builder)
        → Inside b scope parent
        → Built b
        → walk_message file x scope parent b ≡ ok r
        → Kept b r.1
    walk_message-Kept (message_of m name intro items dangling) scope parent b r d built h =
        let (a, i, rest) =
          add_symbol_then file SymKind.message scope name m.id parent none _ b r d built h in
        body_Kept b SymKind.message parent a r _ i
          (λ c e.
            walk_items-Kept items a.inner a.id a.builder c
              (defined_now b SymKind.message parent a refl i) i.kept.built e)
          rest

    walk_items-Kept :
        (is : MsgItems) (scope : Scope) (id : ℕ) (b b' : Builder)
        → Inside b scope (some id)
        → Built b
        → walk_items file is scope id b ≡ ok b'
        → Kept b b'
    walk_items-Kept no_items scope id b b' d built h =
        let e : b ≡ b' = cc in subst (Kept b) e (Kept-self b built)
    walk_items-Kept (cons i is) scope id b b' d built h =
        let (c, e, r) = >>=-eq-ok (walk_item file i scope id b) _ h in
        let k = walk_item-Kept i scope id b c d built e in
        Kept-trans b c b' k
          (walk_items-Kept is scope id c b' (Inside-Kept b c scope (some id) k d) k.built r)

    walk_item-Kept :
        (i : MsgItem) (scope : Scope) (id : ℕ) (b b' : Builder)
        → Inside b scope (some id)
        → Built b
        → walk_item file i scope id b ≡ ok b'
        → Kept b b'
    walk_item-Kept (MsgItem.field f) scope id b b' d built h =
        walk_field-Kept f scope id b b' d built h
    walk_item-Kept (MsgItem.oneof o) scope id b b' d built h =
        walk_fields-Kept o.body.items scope id b b' d built h
    walk_item-Kept (MsgItem.message m) scope id b b' d built h =
        nested_Kept b b' _ (λ r e. walk_message-Kept m scope (some id) b r d built e) h
    walk_item-Kept (MsgItem.enum x) scope id b b' d built h =
        nested_Kept b b' _ (λ r e. walk_enum-Kept x scope (some id) b r d built e) h
    walk_item-Kept (MsgItem.option o) scope id b b' d built h =
        let e : b ≡ b' = cc in subst (Kept b) e (Kept-self b built)
    walk_item-Kept (MsgItem.reserved s) scope id b b' d built h =
        let e : b ≡ b' = cc in subst (Kept b) e (Kept-self b built)

  abbrev push_rpc : ℕ → Rpc → Builder → Builder
  push_rpc id r b = push_ref id file r.output true (push_ref id file r.input true b)

  -- The two references of a method.
  push_rpc-Kept :
      (b : Builder) (parent : ℕ) (a : Added) (r : Rpc)
      → IsAdded b SymKind.method (some parent) a
      → Kept a.builder (push_rpc a.id r a.builder)
  unfolding push_ref
  push_rpc-Kept b parent a r i =
      let one =
        push_ref-Kept a.id file r.input true a.builder parent i.newest i.parent_is i.kept.built in
      let c = push_ref a.id file r.input true a.builder in
      Kept-trans a.builder c (push_rpc a.id r a.builder) one
        (push_ref-Kept a.id file r.output true c parent i.newest i.parent_is one.built)

  walk_rpcs-Kept :
      (is : List SvcItem) (scope : Scope) (parent : ℕ) (b b' : Builder)
      → Inside b scope (some parent)
      → Built b
      → walk_rpcs file is scope parent b ≡ ok b'
      → Kept b b'
  unfolding walk_rpcs
  walk_rpcs-Kept [] scope parent b b' d built h =
      let e : b ≡ b' = cc in subst (Kept b) e (Kept-self b built)
  walk_rpcs-Kept (SvcItem.option o ∷ is) scope parent b b' d built h =
      walk_rpcs-Kept is scope parent b b' d built h
  walk_rpcs-Kept (SvcItem.rpc r ∷ is) scope parent b b' d built h =
      let (a, i, rest) =
        add_symbol_then file SymKind.method scope r.name r.meta.id (some parent) none _ b b' d built
          h in
      let c = push_rpc a.id r a.builder in
      let whole = Kept-trans b a.builder c i.kept (push_rpc-Kept b parent a r i) in
      Kept-trans b c b' whole (
        walk_rpcs-Kept is scope parent c b' (Inside-Kept b c scope (some parent) whole d)
          whole.built rest)

  walk_service-Kept :
      (x : Service) (scope : Scope) (b : Builder) (r : ℕ × Builder)
      → Inside b scope none
      → Built b
      → walk_service file x scope b ≡ ok r
      → Kept b r.1
  unfolding walk_service is_def
  walk_service-Kept x scope b r d built h =
      let (a, i, rest) =
        add_symbol_then file SymKind.service scope x.name x.meta.id none none _ b r d built h in
      body_Kept b SymKind.service none a r _ i
        (λ c e.
          walk_rpcs-Kept x.body.items a.inner a.id a.builder c
            (defined_now b SymKind.service none a refl i) i.kept.built e)
        rest

  -- What follows on a top-level definition.
  top_Kept :
      (b b' : Builder) (walked : Result SemaError (ℕ × Builder))
      → ((r : ℕ × Builder) → walked ≡ ok r → Kept b r.1)
      → (walked >>= λ r. ok (push_top file r)) ≡ ok b'
      → Kept b b'
  unfolding push_top
  top_Kept b b' walked k h =
      let (r, e, last) = >>=-eq-ok walked _ h in
      let same : push_top file r ≡ b' = cc in
      let kept = k r e in
      subst (Kept b) same (record {
        built = kept.built;
        grows = kept.grows;
        longer = kept.longer;
        extends = kept.extends;
      })

  walk_top-Kept :
      (i : Item) (scope : Scope) (b b' : Builder)
      → Inside b scope none
      → Built b
      → walk_top file i scope b ≡ ok b'
      → Kept b b'
  unfolding walk_top
  walk_top-Kept (Item.message m) scope b b' d built h =
      top_Kept b b' _ (λ r e. walk_message-Kept m scope none b r d built e) h
  walk_top-Kept (Item.enum x) scope b b' d built h =
      top_Kept b b' _ (λ r e. walk_enum-Kept x scope none b r d built e) h
  walk_top-Kept (Item.service s) scope b b' d built h =
      top_Kept b b' _ (λ r e. walk_service-Kept s scope b r d built e) h
  walk_top-Kept (Item.syntax s) scope b b' d built h =
      let e : b ≡ b' = cc in subst (Kept b) e (Kept-self b built)
  walk_top-Kept (Item.package_decl p) scope b b' d built h =
      let e : b ≡ b' = cc in subst (Kept b) e (Kept-self b built)
  walk_top-Kept (Item.import i) scope b b' d built h =
      let e : b ≡ b' = cc in subst (Kept b) e (Kept-self b built)
  walk_top-Kept (Item.option o) scope b b' d built h =
      let e : b ≡ b' = cc in subst (Kept b) e (Kept-self b built)

  pub walk_tops-Kept :
      (is : List Item) (scope : Scope) (b b' : Builder)
      → Inside b scope none
      → Built b
      → walk_tops file is scope b ≡ ok b'
      → Kept b b'
  unfolding walk_tops
  walk_tops-Kept [] scope b b' d built h =
      let e : b ≡ b' = cc in subst (Kept b) e (Kept-self b built)
  walk_tops-Kept (i ∷ is) scope b b' d built h =
      let (c, e, r) = >>=-eq-ok (walk_top file i scope b) _ h in
      let k = walk_top-Kept i scope b c d built e in
      Kept-trans b c b' k (walk_tops-Kept is scope c b' (Inside-Kept b c scope none k d) k.built r)
