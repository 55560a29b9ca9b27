-- ===== src/Fsutils/Decode/Sized.antt =====
-- The sizes of all devices that are decoded.
-- The sizes of a device and of all below it are in the range of an `int64`.
use kubernetes_external_prov.Base.{
  All, All-append, Bool-cases, List, Result, Result_map, String, [], err, inl, inr, ok,
  ok-injective, ok≢err, refl, subst, subst⁻¹, sym, ◌>>=◌, ◌∙◌, ◌∷◌, ◌≡◌,
}
use kubernetes_external_prov.Fsutils.Decode.{
  Fields, Items, Json, array, boolean, field, fraction, integer, item, json_null, no_fields,
  no_items, object, string, unmarshal_bool, unmarshal_int64,
}
use kubernetes_external_prov.Fsutils.Decode.Bounds.{Fits, unmarshal_int64-Fits, zero-Fits}
use kubernetes_external_prov.Fsutils.Decode.Output.{
  TextField, decode_device, decode_devices, decode_fields, decode_items, decode_output,
  decode_output_fields, is_key, no_properties, set_property, set_text, string_into, text_fields,
}
use kubernetes_external_prov.Fsutils.Device.{
  BlockDevice, Devices, Properties, cons, device, flatten_children, flatten_device, flatten_devices,
  nil, properties, to_list,
}

unfoldable mutual
  pub IsSized : BlockDevice → Type 0
  IsSized (device p cs) = Fits p.size × AreSized cs

  pub AreSized : Devices → Type 0
  AreSized nil = Unit
  AreSized (cons d ds) = IsSized d × AreSized ds

bind-ok :
    {A B : Type 0} (r : Result A) (f : A → Result B) (b : B)
    → (r >>= f) ≡ ok b
    → (a : A) × (r ≡ ok a) × (f a ≡ ok b)
bind-ok (ok a) f b h = (a, refl, h)
bind-ok (err e) f b h = absurd (ok≢err (sym h))

map-ok :
    {A B : Type 0} (f : A → B) (r : Result A) (b : B)
    → Result_map f r ≡ ok b
    → (a : A) × (r ≡ ok a) × (f a ≡ b)
map-ok f (ok a) b h = (a, refl, ok-injective h)
map-ok f (err e) b h = absurd (ok≢err (sym h))

abbrev KeepsSize : TextField → Type 0
KeepsSize f = (s : String) (p : Properties) → (f.assign s p).size ≡ p.size

text_fields-KeepsSize : All KeepsSize text_fields
text_fields-KeepsSize = (
  λ s p. refl,
  (
    λ s p. refl,
    (
      λ s p. refl,
      (
        λ s p. refl,
        (
          λ s p. refl,
          (
            λ s p. refl,
            (
              λ s p. refl,
              (
                λ s p. refl,
                (λ s p. refl, (λ s p. refl, (λ s p. refl, (λ s p. refl, (λ s p. refl, tt))))),
              ),
            ),
          ),
        ),
      ),
    ),
  ),
)

set_text-Fits :
    (fs : List TextField) (key : String) (v : Json) (p q : Properties)
    → All KeepsSize fs
    → Fits p.size
    → set_text fs key v p ≡ ok q
    → Fits q.size
unfolding set_text
set_text-Fits [] key v p q keep fit h = subst (λ (x : Properties). Fits x.size) (ok-injective h) fit
set_text-Fits (f ∷ fs) key v p q (keep, keeps) fit h = elim (Bool-cases (is_key f.tag key)) [
  | inl mine ↦
      let (s, read_text, set) =
        map-ok (λ s. f.assign s p) (string_into (f.value p) v) q (sym (rw mine) ∙ h) in
      subst (λ (x : Properties). Fits x.size) set (subst⁻¹ Fits (keep s p) fit)
  | inr apart ↦ set_text-Fits fs key v p q keeps fit (sym (rw apart) ∙ h)
]

set_property-Fits :
    (key : String) (v : Json) (p q : Properties)
    → Fits p.size
    → set_property key v p ≡ ok q
    → Fits q.size
unfolding set_property
set_property-Fits key v p q fit h = elim (Bool-cases (is_key "size" key)) [
  | inl size ↦
      let (z, read_size, set) =
        map-ok (λ z. record p { size = z }) (unmarshal_int64 v) q (sym (rw size) ∙ h) in
      subst (λ (x : Properties). Fits x.size) set (unmarshal_int64-Fits v z read_size)
  | inr unsized ↦ elim (Bool-cases (is_key "rota" key)) [
    | inl rota ↦
        let (b, read_rota, set) =
          map-ok (λ b. record p { rota = b }) (unmarshal_bool v) q (sym (rw (unsized, rota)) ∙ h) in
        subst (λ (x : Properties). Fits x.size) set fit
    | inr plain ↦
        set_text-Fits text_fields key v p q text_fields-KeepsSize fit
          (sym (rw (unsized, plain)) ∙ h)
  ]
]

mutual
  unfolding decode_device IsSized

  device-IsSized : (v : Json) (d : BlockDevice) → decode_device v ≡ ok d → IsSized d
  device-IsSized json_null d h = subst IsSized (ok-injective h) (zero-Fits, tt)
  device-IsSized (object fs) d h = fields-IsSized no_properties nil fs d zero-Fits tt h
  device-IsSized (integer z) d h = absurd (ok≢err (sym h))
  device-IsSized (fraction s) d h = absurd (ok≢err (sym h))
  device-IsSized (boolean b) d h = absurd (ok≢err (sym h))
  device-IsSized (string s) d h = absurd (ok≢err (sym h))
  device-IsSized (array vs) d h = absurd (ok≢err (sym h))

  fields-IsSized :
      (p : Properties) (cs : Devices) (fs : Fields) (d : BlockDevice)
      → Fits p.size
      → AreSized cs
      → decode_fields p cs fs ≡ ok d
      → IsSized d
  fields-IsSized p cs no_fields d fit sized h = subst IsSized (ok-injective h) (fit, sized)
  fields-IsSized p cs (field key v fs) d fit sized h = elim (Bool-cases (is_key "children" key)) [
    | inl below ↦
        let (ds, got, out) =
          bind-ok (decode_devices v) (λ ds. decode_fields p ds fs) d (sym (rw below) ∙ h) in
        fields-IsSized p ds fs d fit (devices-AreSized v ds got) out
    | inr own ↦
        let (q, got, out) =
          bind-ok (set_property key v p) (λ q. decode_fields q cs fs) d (sym (rw own) ∙ h) in
        fields-IsSized q cs fs d (set_property-Fits key v p q fit got) sized out
  ]

  devices-AreSized : (v : Json) (ds : Devices) → decode_devices v ≡ ok ds → AreSized ds
  devices-AreSized json_null ds h = subst AreSized (ok-injective h) tt
  devices-AreSized (array vs) ds h = items-AreSized vs ds h
  devices-AreSized (integer z) ds h = absurd (ok≢err (sym h))
  devices-AreSized (fraction s) ds h = absurd (ok≢err (sym h))
  devices-AreSized (boolean b) ds h = absurd (ok≢err (sym h))
  devices-AreSized (string s) ds h = absurd (ok≢err (sym h))
  devices-AreSized (object fs) ds h = absurd (ok≢err (sym h))

  items-AreSized : (vs : Items) (ds : Devices) → decode_items vs ≡ ok ds → AreSized ds
  items-AreSized no_items ds h = subst AreSized (ok-injective h) tt
  items-AreSized (item v vs) ds h =
      let (d, first, rest) =
        bind-ok (decode_device v) (λ d. Result_map (cons d) (decode_items vs)) ds h in
      let (es, later, same) = map-ok (cons d) (decode_items vs) ds rest in
      subst AreSized same (device-IsSized v d first, items-AreSized vs es later)

output-AreSized :
    (ds es : Devices) (fs : Fields) → AreSized ds → decode_output_fields ds fs ≡ ok es → AreSized es
unfolding decode_output_fields
output-AreSized ds es no_fields sized h = subst AreSized (ok-injective h) sized
output-AreSized ds es (field key v fs) sized h = elim (Bool-cases (is_key "blockdevices" key)) [
  | inl listed ↦
      let (new, got, out) =
        bind-ok (decode_devices v) (λ new. decode_output_fields new fs) es (sym (rw listed) ∙ h) in
      output-AreSized new es fs (devices-AreSized v new got) out
  | inr apart ↦ output-AreSized ds es fs sized (sym (rw apart) ∙ h)
]

abbrev pub HasSize : BlockDevice → Type 0
HasSize d = Fits (properties d).size

mutual
  unfolding flatten_device IsSized

  flatten_device-IsSized : (d : BlockDevice) → IsSized d → All HasSize (flatten_device d)
  flatten_device-IsSized (device p cs) (h, g) = (h, flatten_children-AreSized cs g)

  flatten_children-AreSized : (ds : Devices) → AreSized ds → All HasSize (flatten_children ds)
  flatten_children-AreSized nil g = tt
  flatten_children-AreSized (cons d ds) (h, g) =
      All-append HasSize (flatten_device d) (flatten_children ds) (flatten_device-IsSized d h)
        (flatten_children-AreSized ds g)

flatten_devices-AreSized : (ds : Devices) → AreSized ds → All HasSize (flatten_devices (to_list ds))
unfolding flatten_devices IsSized
flatten_devices-AreSized nil g = tt
flatten_devices-AreSized (cons d ds) (h, g) =
    All-append HasSize (flatten_device d) (flatten_devices (to_list ds))
      (flatten_device-IsSized d h) (flatten_devices-AreSized ds g)

-- The size of every device that is decoded from the output of lsblk, at any depth, is in the range of an
-- `int64`.
pub decode_output-HasSize :
    (v : Json) (devices : List BlockDevice)
    → decode_output v ≡ ok devices
    → All HasSize (flatten_devices devices)
unfolding decode_output flatten_devices
decode_output-HasSize json_null devices h =
    subst (λ ds. All HasSize (flatten_devices ds)) (ok-injective h) tt
decode_output-HasSize (object fs) devices h =
    let (ds, got, same) = map-ok to_list (decode_output_fields nil fs) devices h in
    subst (λ es. All HasSize (flatten_devices es)) same
      (flatten_devices-AreSized ds (output-AreSized nil ds fs (unfold IsSized in tt) got))
decode_output-HasSize (integer z) devices h = absurd (ok≢err (sym h))
decode_output-HasSize (fraction s) devices h = absurd (ok≢err (sym h))
decode_output-HasSize (boolean b) devices h = absurd (ok≢err (sym h))
decode_output-HasSize (string s) devices h = absurd (ok≢err (sym h))
decode_output-HasSize (array vs) devices h = absurd (ok≢err (sym h))
