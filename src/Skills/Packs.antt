-- ===== src/Skills/Packs.antt =====
-- web/src/App.jsx, `SKILL_PACKS`: the skills that a pack installs for a listener.
use webhook_listener.Prelude.{
  Bool, true, String, ◌==◌, List, [], ◌∷◌, Option, none, some, if◌then◌else◌,
}
use webhook_listener.Js.Value.{Value, str, num, bool, obj, end, field}

pub record PackSkill : Type 0 where
  pub skill_key : String
  pub skill_prompt : String
  pub match_contains : String
  pub forced_action : String
  pub memory_write_mode : String
  pub priority : String
  pub enabled : Bool

pub record Pack : Type 0 where
  pub label : String
  pub specific_match_contains : String
  pub skills : List PackSkill

abbrev pub whatsapp : Pack
whatsapp = record {
  label = "WhatsApp Pack";
  specific_match_contains = "whatsapp";
  skills =
      record {
        skill_key = "channel_whatsapp_router";
        skill_prompt =
            "Route conversational WhatsApp messages into lead capture, support escalation, or spam filtering.";
        match_contains = "whatsapp,message,phone,chat";
        forced_action = "store_mysql";
        memory_write_mode = "update_or_insert";
        priority = "10";
        enabled = true;
      }
      ∷ record {
        skill_key = "whatsapp_spam_filter";
        skill_prompt = "Detect promotional or low-value WhatsApp outreach and suppress it.";
        match_contains = "promo,offer,discount,click here,unsubscribe";
        forced_action = "no_action";
        memory_write_mode = "disabled";
        priority = "20";
        enabled = true;
      }
      ∷ record {
        skill_key = "whatsapp_lead_capture";
        skill_prompt =
            "Extract lead name, company, and intent from WhatsApp messages and prepare CRM-ready output.";
        match_contains = "demo,pricing,interested,company,trial";
        forced_action = "crm_upsert";
        memory_write_mode = "update_or_insert";
        priority = "30";
        enabled = true;
      }
      ∷ record {
        skill_key = "whatsapp_support_escalation";
        skill_prompt =
            "Summarize urgent support issues from WhatsApp and notify the operations team.";
        match_contains = "urgent,error,broken,down,issue,help";
        forced_action = "slack_notify";
        memory_write_mode = "update_or_insert";
        priority = "40";
        enabled = true;
      }
      ∷ [];
}

abbrev pub email : Pack
email = record {
  label = "Email Pack";
  specific_match_contains = "email";
  skills =
      record {
        skill_key = "channel_email_router";
        skill_prompt =
            "Route email-style traffic into marketing noise, sales leads, or finance approvals.";
        match_contains = "subject,from,to,email,inbox";
        forced_action = "store_mysql";
        memory_write_mode = "update_or_insert";
        priority = "10";
        enabled = true;
      }
      ∷ record {
        skill_key = "email_marketing_noise_filter";
        skill_prompt = "Suppress newsletters and low-signal email campaigns.";
        match_contains = "newsletter,unsubscribe,discount,offer,promo";
        forced_action = "no_action";
        memory_write_mode = "disabled";
        priority = "20";
        enabled = true;
      }
      ∷ record {
        skill_key = "email_sales_lead_router";
        skill_prompt =
            "Extract qualified inbound lead details from email and prepare a CRM upsert.";
        match_contains = "demo,enterprise,pricing,quote,trial";
        forced_action = "crm_upsert";
        memory_write_mode = "update_or_insert";
        priority = "30";
        enabled = true;
      }
      ∷ record {
        skill_key = "email_invoice_approval";
        skill_prompt =
            "Detect invoice and approval emails that need finance follow-up or ticketing.";
        match_contains = "invoice,approval,payment,approve,overdue";
        forced_action = "ticket_create";
        memory_write_mode = "update_or_insert";
        priority = "40";
        enabled = true;
      }
      ∷ [];
}

abbrev pub gate : Pack
gate = record {
  label = "GetApproval Pack";
  specific_match_contains = "approval";
  skills =
      record {
        skill_key = "channel_getapproval_router";
        skill_prompt =
            "Route approval workflow events into request, escalation, or archive behavior.";
        match_contains = "approval,approver,pending,request_status,approval_url";
        forced_action = "store_mysql";
        memory_write_mode = "update_or_insert";
        priority = "10";
        enabled = true;
      }
      ∷ record {
        skill_key = "approval_request_classifier";
        skill_prompt =
            "Summarize standard approval requests and capture who needs to decide and by when.";
        match_contains = "approval requested,pending approval,requester";
        forced_action = "manual_review";
        memory_write_mode = "update_or_insert";
        priority = "20";
        enabled = true;
      }
      ∷ record {
        skill_key = "approval_urgent_escalation";
        skill_prompt = "Escalate urgent approval messages to ops or finance immediately.";
        match_contains = "urgent approval,blocked,release,critical";
        forced_action = "slack_notify";
        memory_write_mode = "update_or_insert";
        priority = "30";
        enabled = true;
      }
      ∷ record {
        skill_key = "approval_auto_archive";
        skill_prompt = "Track completed approval events without triggering downstream action.";
        match_contains = "approved,rejected,completed";
        forced_action = "store_mysql";
        memory_write_mode = "insert_only";
        priority = "40";
        enabled = true;
      }
      ∷ [];
}

-- SKILL_PACKS[packKey]
unfoldable pub skill_pack : String → Option Pack
skill_pack key =
    if key == "whatsapp"
    then some whatsapp
    else if key == "email"
    then some email
    else if key == "gate"
    then some gate
    else none

-- { type_key, ...skill }
abbrev pub pack_body : Value → PackSkill → Value
pack_body key skill = obj (
    field "type_key" key (
      field "skill_key" (str skill.skill_key) (
        field "skill_prompt" (str skill.skill_prompt) (
          field "match_contains" (str skill.match_contains) (
            field "forced_action" (str skill.forced_action) (
              field "memory_write_mode" (str skill.memory_write_mode) (
                field "priority" (num skill.priority)
                  (field "enabled" (bool skill.enabled) end))))))))
