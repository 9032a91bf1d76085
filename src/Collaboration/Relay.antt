-- ===== src/Collaboration/Relay.antt =====
-- Cross-domain alerts and CRDT envelopes: the methods of CollaborationService that only publish.
use hcp.Prelude.{ℕ, String, Bool, pos}
use hcp.Json.{num, str, obj, Fields, end, field, merge_fields}
use hcp.Auth.{CurrentUser}
use hcp.Db.{EventRow}
use hcp.Action.{Action}
use hcp.Events.{Runtime, publish, cross_domain_alert, crdt_operation}
use hcp.Access.{as_editor}

module _ (rt : Runtime) where
  publish_cross_domain_alert :
      CurrentUser
      → ℕ
      → (alert_id source_domain target_domain severity message : String) → Fields
      → Action (EventRow × Bool)
  unfolding as_editor
  publish_cross_domain_alert user project_id alert_id source_domain target_domain severity message
        context =
      as_editor user project_id (
        publish rt (
          cross_domain_alert rt user.org_id project_id alert_id user.id (
            obj (
              merge_fields
                (field "alert_id" (str alert_id) (
                  field "source_domain" (str source_domain) (
                    field "target_domain" (str target_domain)
                      (field "severity" (str severity) (field "message" (str message) end)))))
                context))))

  submit_crdt_operation :
      CurrentUser → ℕ → (document_id operation_id : String) → Fields → Action (EventRow × Bool)
  unfolding as_editor
  submit_crdt_operation user project_id document_id operation_id envelope =
      as_editor user project_id (
        publish rt (
          crdt_operation rt user.org_id project_id document_id operation_id user.id (
            obj (
              merge_fields
                (field "document_id" (str document_id) (
                  field "operation_id" (str operation_id)
                    (field "schema_version" (num (pos 0)) end)))
                envelope))))
