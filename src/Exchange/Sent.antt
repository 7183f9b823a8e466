-- ===== src/Exchange/Sent.antt =====
-- What the message of an insertion has, when it can be sent.
use mathlib.Core.List.{reverse_aux}
use mathlib.Core.Path.{subst}
use mathlib.Core.Option.{none-ne-some, some-injective}
use llp_base.Common.{
  ℕ, ◌^◌, ◌<◌, ◌≤◌, ◌≡◌, refl, sym, ap, ◌∙◌, Option, none, some, Bool, true, false, List, [], ◌∷◌,
  map, length, ltb, if◌then◌else◌, arith,
}
use llp_base.Message.{Query, ValueSetting, KeyValuePair, max_count, max_size}
use llp_base.Client.{
  ◌>>=◌, KeyValue, Value, name, bool, Setting, Statement, wire_int, wire_string, wire_kv,
  wire_conditions, wire_filters, wire_settings, int_part,
}
use llp_base.Client.Commands.{setting_kv}
use llp_base.Client.Grammar.{IsValue}
use llp_base.Client.Sending.{message, settings_sent}
use llp_base.Handler.{parent_of}
use llp_base.Public.Typed.{AreDecoded, IsDecoded}

-- Numbers of 64 bits.
abbrev pub HaveWords : List KeyValue → Type 0
HaveWords [] = Unit {0}
HaveWords (kv ∷ kvs) = (wire_int kv.value_int < 2 ^ 64) × HaveWords kvs

abbrev pub IsWord : Value → Type 0
IsWord (Value.int n) = n < 2 ^ 64
IsWord _ = Unit {0}

abbrev pub SetWords : List Setting → Type 0
SetWords [] = Unit {0}
SetWords ((key, v) ∷ ss) = IsWord v × IsValue v × SetWords ss

int_part-word : (v : Value) → IsWord v → IsValue v → wire_int (int_part v) < 2 ^ 64
unfolding wire_int int_part
int_part-word (name s) h k = omega arith
int_part-word (Value.int n) h k = h
int_part-word (Value.float r) h k = omega arith
int_part-word (bool n) h k = omega arith

pub reverse_aux-HaveWords :
    (ss : List Setting) (kvs : List KeyValue)
    → SetWords ss
    → HaveWords kvs
    → HaveWords (reverse_aux (map setting_kv ss) kvs)
reverse_aux-HaveWords [] kvs h k = k
reverse_aux-HaveWords ((key, v) ∷ ss) kvs (h, i, j) k =
    reverse_aux-HaveWords ss (setting_kv (key, v) ∷ kvs) j (int_part-word v h i, k)

-- What a step that succeeds has seen.
bind-some :
    {A B : Type 0} (o : Option A) (f : A → Option B) (b : B)
    → (o >>= f) ≡ some b
    → (a : A) × (o ≡ some a) × (f a ≡ some b)
bind-some none f b e = absurd (none-ne-some b e)
bind-some (some a) f b e = (a, refl, e)

if-some :
    {B : Type 0} (t : Bool) (o : Option B) (b : B)
    → (if t then o else none) ≡ some b
    → (t ≡ true) × (o ≡ some b)
if-some true o b e = (refl, e)
if-some false o b e = absurd (none-ne-some b e)

unless-some :
    {B : Type 0} (t : Bool) (o : Option B) (b : B) → (if t then none else o) ≡ some b → o ≡ some b
unless-some true o b e = absurd (none-ne-some b e)
unless-some false o b e = e

wire_kv-IsDecoded :
    (kv : KeyValue) (p : KeyValuePair)
    → wire_kv kv ≡ some p
    → wire_int kv.value_int < 2 ^ 64
    → IsDecoded (record { kv = p })
unfolding wire_kv
wire_kv-IsDecoded kv p e h =
    let (s, got, e1) = bind-some (wire_string kv.value_type kv.value_int) _ p e in
    let (l, e2) = if-some (ltb (length s) max_size) _ p e1 in
    let (k, e3) = if-some (ltb (length kv.key) max_size) _ p e2 in
    let same = some-injective _ p e3 in
    let key : length kv.key ≤ 1023 = ground arith in
    let same_key : kv.key ≡ p.key = ap (λ (r : KeyValuePair). r.key) same in
    let same_int : wire_int kv.value_int ≡ p.value_int =
      ap (λ (r : KeyValuePair). r.value_int) same in
    record {
      key_fits = subst (λ k. length k ≤ 1023) same_key key;
      int_word = subst (λ n. n < 2 ^ 64) same_int h;
    }

pub wire_settings-AreDecoded :
    (kvs : List KeyValue) (settings : List ValueSetting)
    → wire_settings kvs ≡ some settings
    → HaveWords kvs
    → AreDecoded settings
unfolding wire_settings
wire_settings-AreDecoded [] settings e h = subst AreDecoded (some-injective [] settings e) tt
wire_settings-AreDecoded (kv ∷ kvs) settings e (h, hs) =
    let (p, a, e1) = bind-some (wire_kv kv) _ settings e in
    let (rest, b, e2) = bind-some (wire_settings kvs) _ settings e1 in
    subst AreDecoded (some-injective _ settings e2)
      (wire_kv-IsDecoded kv p a h, wire_settings-AreDecoded kvs rest b hs)

-- The message of an insertion.
pub message-insertion :
    (id : ℕ) (ss : List Setting) (q : Query)
    → message (Statement.insert id ss) ≡ some q
    → (q.command ≡ 2)
      × (parent_of q.filters_list ≡ id)
      × (wire_settings (settings_sent (Statement.insert id ss)) ≡ some q.settings_list)
unfolding message wire_filters wire_conditions wire_kv wire_string wire_int parent_of
message-insertion id ss q e =
    let (settings, a, e1) =
      bind-some (wire_settings (settings_sent (Statement.insert id ss))) _ q e in
    let same = some-injective _ q (unless-some (ltb max_count (length settings)) _ q e1) in
    (
      sym (ap (λ (r : Query). r.command) same),
      sym (ap (λ (r : Query). parent_of r.filters_list) same),
      a ∙ ap (λ (r : Query). some r.settings_list) same,
    )
