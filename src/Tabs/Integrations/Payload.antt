-- ===== src/Tabs/Integrations/Payload.antt =====
-- The payload that a form of the integrations tab is sent as.
use webhook_listener.Prelude.{
  ◌≡◌, refl, Bool, true, false, String, ◌==◌, eq_iff, arith, some, if◌then◌else◌, Bool-cases, inl,
  inr,
}
use webhook_listener.Js.Value.{
  Value, str, arr, obj, end, prop, is_text, is_object, truthy, of_list, to_text, ◌or◌,
}
use webhook_listener.Js.Engine.{Engine}
use webhook_listener.Json.{
  is_blank, safe_json_parse, pretty_json, parse_object_or_throw, target_config_from_record,
  object_from_json_text, target_record_details,
}
use webhook_listener.Json.Laws.{
  parse_object_or_throw-is_object, target_records-is_object, from_json_text-kind,
}
use webhook_listener.Async.{Result, ok, err}
use webhook_listener.Async.Steps.{trim_value}
use webhook_listener.Tabs.Integrations.{
  TargetForm, ◌then_ok◌, payload_of, target_payload, form_of_target,
}

then_ok-inv :
    {A B : Type 0} {b : B} (r : Result A) (f : A → Result B)
    → (r then_ok f) ≡ ok b
    → (a : A) × (r ≡ ok a) × (f a ≡ ok b)
then_ok-inv (ok a) f h = (a, refl, h)
then_ok-inv (err e) f h = cc

checked :
    {A : Type 0} {b : A} (c : Bool) (a : A) (message : String)
    → (if c then err message else ok a) ≡ ok b
    → (c ≡ false) × (a ≡ b)
checked true a message h = cc
checked false a message h = (refl, cc)

blank_nil : is_blank (str "") ≡ true
unfolding is_blank
blank_nil = refl

filled_text : (t : String) → is_blank (str t) ≡ false → (t == "") ≡ false
filled_text t h = elim (Bool-cases (t == "")) [
  | inl e ↦
      let same : t ≡ "" = (eq_iff t "").0 e in
      let blank : is_blank (str t) ≡ true = rw same blank_nil in cc
  | inr e ↦ e
]

module _ ⦃js : Engine⦄ where
  -- What every payload that is sent satisfies.
  pub record IsPayload (form : TargetForm) (payload : Value) : Type 0 where
    pub has_key : (key : String) × (trim_value form.target_key ≡ ok key) × ((key == "") ≡ false)
    pub key : prop "target_key" payload ≡ form.target_key
    pub no_openclaw : is_text (prop "target_type" payload) "openclaw" ≡ false
    pub no_none : is_text (prop "type" (prop "auth" payload)) "none" ≡ false
    pub config : is_object (prop "config" payload) ≡ true
    pub schema : is_object (prop "schema" payload) ≡ true
    pub secret_refs : is_object (prop "header_secret_refs" payload) ≡ true
    pub env_refs : is_object (prop "header_env_refs" payload) ≡ true
    pub actions : prop "allowed_actions" payload ≡ arr (of_list form.allowed_actions)

  payload_of-IsPayload :
      (form : TargetForm) (config schema secret_refs env_refs : Value) (key : String)
      → is_object config ≡ true
      → is_object schema ≡ true
      → is_object secret_refs ≡ true
      → is_object env_refs ≡ true
      → trim_value form.target_key ≡ ok key
      → (key == "") ≡ false
      → IsPayload form (payload_of form config schema secret_refs env_refs)
  unfolding payload_of prop
  payload_of-IsPayload form config schema secret_refs env_refs key c s r v k e = record {
    has_key = (key, k, e);
    key = refl;
    no_openclaw = ground arith;
    no_none = ground arith;
    config = c;
    schema = s;
    secret_refs = r;
    env_refs = v;
    actions = refl;
  }

  -- What is sent has a key that is not blank, never the type openclaw nor the auth type none, and
  -- plain objects for its config, schema and references.
  pub target_payload-IsPayload :
      (form : TargetForm) (payload : Value)
      → target_payload form ≡ ok payload
      → IsPayload form payload
  unfolding target_payload
  target_payload-IsPayload form payload h =
      let (config, c, h₁) = then_ok-inv _ _ h in
      let (schema, s, h₂) = then_ok-inv _ _ h₁ in
      let (secret_refs, r, h₃) = then_ok-inv _ _ h₂ in
      let (env_refs, v, h₄) = then_ok-inv _ _ h₃ in
      let (key, k, h₅) = then_ok-inv _ _ h₄ in
      let (filled, same) = checked (key == "") _ "target_key is required" h₅ in
      rw (← same) (
        payload_of-IsPayload form config schema secret_refs env_refs key
          (parse_object_or_throw-is_object _ _ config c)
          (parse_object_or_throw-is_object _ _ schema s)
          (parse_object_or_throw-is_object _ _ secret_refs r)
          (parse_object_or_throw-is_object _ _ env_refs v) k filled)

  -- A value that the engine prints to a text that is not blank and that parses back.
  abbrev pub IsKept : Value → Type 0
  IsKept v = (js.parse (pretty_json v) ≡ some v) × (is_blank (str (pretty_json v)) ≡ false)

  parse_pretty :
      (v : Value) (label : String)
      → is_object v ≡ true
      → IsKept v
      → parse_object_or_throw (str (pretty_json v)) label ≡ ok v
  unfolding parse_object_or_throw safe_json_parse truthy to_text
  parse_pretty v label h k = ground (arith, k, filled_text (pretty_json v) k.1)

  -- The payload of a row that was opened for editing.
  form_of_target-payload :
      (target : Value) (key : String)
      → trim_value (prop "target_key" target or str "") ≡ ok key
      → (key == "") ≡ false
      → let refs = λ (k : String). prop k (target_record_details target) or obj end in
        is_object (refs "header_secret_refs") ≡ true
        → is_object (refs "header_env_refs") ≡ true
        → IsKept (target_config_from_record target)
        → IsKept (object_from_json_text (prop "schema_json" target))
        → IsKept (refs "header_secret_refs")
        → IsKept (refs "header_env_refs")
        → target_payload (form_of_target target)
          ≡ ok (
              payload_of
                (form_of_target target)
                (target_config_from_record target)
                (object_from_json_text (prop "schema_json" target))
                (refs "header_secret_refs")
                (refs "header_env_refs"))
  unfolding target_payload form_of_target
  form_of_target-payload target key k filled s e kc ks kr ke =
      let details = target_record_details target in
      rw (
        parse_pretty _ "Config JSON" (target_records-is_object target).0 kc,
        parse_pretty _ "Schema JSON" (from_json_text-kind (prop "schema_json" target)).1 ks,
        parse_pretty _ "Header secret refs JSON" s kr,
        parse_pretty _ "Header env refs JSON" e ke,
        k,
        filled,
      )

  -- What a payload sends back of the row.
  pub record SendsBack (target payload : Value) : Type 0 where
    pub key : prop "target_key" payload ≡ (prop "target_key" target or str "")
    pub purpose : prop "purpose" payload ≡ (prop "purpose" target or str "")
    pub config : prop "config" payload ≡ target_config_from_record target
    pub schema : prop "schema" payload ≡ object_from_json_text (prop "schema_json" target)
    pub secret_refs :
        prop "header_secret_refs" payload
        ≡ (prop "header_secret_refs" (target_record_details target) or obj end)
    pub env_refs :
        prop "header_env_refs" payload
        ≡ (prop "header_env_refs" (target_record_details target) or obj end)

  payload_of-SendsBack :
      (target : Value)
      → let refs = λ (k : String). prop k (target_record_details target) or obj end in
        SendsBack target (
          payload_of
            (form_of_target target)
            (target_config_from_record target)
            (object_from_json_text (prop "schema_json" target))
            (refs "header_secret_refs")
            (refs "header_env_refs"))
  unfolding payload_of prop form_of_target
  payload_of-SendsBack target = record {
    key = refl;
    purpose = refl;
    config = refl;
    schema = refl;
    secret_refs = refl;
    env_refs = refl;
  }

  -- Opening a row for editing and saving the form unchanged sends a payload whose key, purpose,
  -- config, schema and references are those that the row holds, if the key is not blank and the
  -- config, the schema and the references are objects that print and parse back.
  pub target_payload-form_of_target :
      (target : Value) (key : String)
      → trim_value (prop "target_key" target or str "") ≡ ok key
      → (key == "") ≡ false
      → let refs = λ (k : String). prop k (target_record_details target) or obj end in
        is_object (refs "header_secret_refs") ≡ true
        → is_object (refs "header_env_refs") ≡ true
        → IsKept (target_config_from_record target)
        → IsKept (object_from_json_text (prop "schema_json" target))
        → IsKept (refs "header_secret_refs")
        → IsKept (refs "header_env_refs")
        → (payload : Value) × (target_payload (form_of_target target) ≡ ok payload)
          × SendsBack target payload
  target_payload-form_of_target target key k filled s e kc ks kr ke =
      (_, form_of_target-payload target key k filled s e kc ks kr ke, payload_of-SendsBack target)
