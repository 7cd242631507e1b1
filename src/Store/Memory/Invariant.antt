-- ===== src/Store/Memory/Invariant.antt =====
-- The invariant of the memory store: the ids that the allocator does not hold free are those of the
-- stored rooms, and each room stands under the code of its id.
use scpy.Prelude.{
  ℕ, ◌≡◌, refl, sym, ap, ap₂, subst, ◌∙◌, inl, inr, Bool, true, false, ◌&&◌, arith, ◌==◌, Option,
  none, some, some_inj, Bool-cases, Text, text_eq, text_eq_iff,
}
use scpy.HashMap.{HashMap, lookup, insert, remove}
use scpy.HashMap.Laws.{lookup-insert, lookup-remove}
use scpy.Alloc.Code.{CodeAllocation, encode_local_id}
use scpy.Alloc.Code.RoundTrip.{encode_local_id_injective, encode_local_id_range}
use scpy.Alloc.Tier
use scpy.Alloc.Tier.{TieredAllocator}
use scpy.Alloc.Tier.Invariant.{IsValid, is_free, free-IsFreed}
use scpy.Alloc.Tier.Invariant.Allocate.{IsAllocated}
use scpy.Store.Memory.{ExpiringRoom, MemoryRoomStore}

abbrev pub is_none {ℓ} : {A : Type ℓ} → Option A → Bool
is_none none = true
is_none (some a) = false

-- The room stands under the code of its id.
abbrev pub IsKeyed : {P : Type 0} → Text → ExpiringRoom P → Type 0
IsKeyed code entry =
    (encode_local_id entry.room_record.code_len entry.room_record.local_id ≡ some code)
    × (entry.room_record.room_id ≡ code)

abbrev pub AreKeyed : {P : Type 0} → HashMap (ExpiringRoom P) → Type 0
AreKeyed {P} rooms =
    (code : Text) (entry : ExpiringRoom P) → lookup code rooms ≡ some entry → IsKeyed code entry

-- A room put under its own code keeps every room under its own.
pub AreKeyed-insert :
    {P : Type 0} (rooms : HashMap (ExpiringRoom P)) (code : Text) (entry : ExpiringRoom P)
    → IsKeyed code entry
    → AreKeyed rooms
    → AreKeyed (insert code entry rooms)
AreKeyed-insert rooms code entry own keyed k e h = elim (Bool-cases (text_eq code k)) [
  | inl same ↦
      let here : entry ≡ e = some_inj (sym (lookup-insert code k entry rooms ∙ rw same refl) ∙ h) in
      let key : code ≡ k = (text_eq_iff code k).0 same in
      subst (λ x. IsKeyed k x) here (subst (λ x. IsKeyed x entry) key own)
  | inr other ↦ keyed k e (sym (lookup-insert code k entry rooms ∙ rw other refl) ∙ h)
]

module _ {P L : Type 0} where
  pub record IsConsistent (s : MemoryRoomStore P L) : Type 0 where
    pub alloc : IsValid s.allocator
    pub keyed : AreKeyed s.rooms
    pub exact :
        (n id : ℕ) (code : Text)
        → encode_local_id n id ≡ some code
        → is_free s.allocator n id ≡ is_none (lookup code s.rooms)

-- Two codes are one exactly when their ids are.
pub text_eq-codes :
    (n id m j : ℕ) (code code' : Text)
    → encode_local_id n id ≡ some code
    → encode_local_id m j ≡ some code'
    → text_eq code code' ≡ (n == m && j == id)
text_eq-codes n id m j code code' h k = elim (Bool-cases (text_eq code code')) [
  | inl same ↦
      let e : code ≡ code' = (text_eq_iff code code').0 same in
      let (lengths, ids) = encode_local_id_injective n m id j code h (k ∙ ap some (sym e)) in
      ground arith
  | inr other ↦ elim (Bool-cases (n == m && j == id)) [
    | inl same ↦
        let lengths : n ≡ m = ground arith in
        let ids : id ≡ j = ground arith in
        let e = some_inj (sym h ∙ ap₂ encode_local_id lengths ids ∙ k) in
        absurd (cc (other, (text_eq_iff code code').1 e))
    | inr apart ↦ cc
  ]
]

module _ {P L : Type 0} (s : MemoryRoomStore P L) (c : IsConsistent s) where
  -- Without the room of an expired entry, and with its id free again.
  pub evict-IsConsistent :
      (code : Text) (entry : ExpiringRoom P)
      → lookup code s.rooms ≡ some entry
      → IsConsistent (record s {
        rooms = remove code s.rooms;
        allocator = (Tier.free s.allocator entry.room_record.code_len entry.room_record.local_id).0;
      })
  evict-IsConsistent code entry found =
      let r = entry.room_record in
      let (encoded, named) = c.keyed code entry found in
      let (capacity, valid, inside) = encode_local_id_range r.code_len r.local_id code encoded in
      let f = free-IsFreed s.allocator c.alloc r.code_len capacity r.local_id valid inside in
      record {
        alloc = f.keeps;
        keyed = λ k e h. ground (arith, lookup-remove code k s.rooms, c.keyed k e);
        exact = λ m j k h. ground (
          arith,
          f.ids m j,
          lookup-remove code k s.rooms,
          text_eq-codes r.code_len r.local_id m j code k encoded h,
          c.exact m j k h,
        );
      }

  -- With a new room under the code of an id that was free.
  pub admit-IsConsistent :
      (a' : TieredAllocator) (code : CodeAllocation) (entry : ExpiringRoom P)
      → IsAllocated s.allocator a' code
      → IsKeyed code.room_id entry
      → IsConsistent (record s { rooms = insert code.room_id entry s.rooms; allocator = a' })
  admit-IsConsistent a' code entry i own = record {
    alloc = i.keeps;
    keyed = AreKeyed-insert s.rooms code.room_id entry own c.keyed;
    exact = λ m j k h. ground (
      arith,
      i.taken m j,
      lookup-insert code.room_id k entry s.rooms,
      text_eq-codes code.code_len code.local_id m j code.room_id k i.encoded h,
      c.exact m j k h,
    );
  }

  -- With the room of a code rewritten in place.
  pub rewrite-IsConsistent :
      (code : Text) (old entry : ExpiringRoom P)
      → lookup code s.rooms ≡ some old
      → IsKeyed code entry
      → IsConsistent (record s { rooms = insert code entry s.rooms })
  rewrite-IsConsistent code old entry found own = record {
    alloc = c.alloc;
    keyed = AreKeyed-insert s.rooms code entry own c.keyed;
    exact = λ m j k h.
        ground
          (arith, lookup-insert code k entry s.rooms, text_eq_iff code k, found, c.exact m j k h);
  }
