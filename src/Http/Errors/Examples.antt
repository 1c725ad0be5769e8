-- ===== src/Http/Errors/Examples.antt =====
-- Tests of the error envelope.
use feature_flag_service.Common.{◌≡◌, refl, ◌≤◌, ◌<◌, codes, is_empty, [], none}
use feature_flag_service.Common.Text.{ascii}
use feature_flag_service.Http.Errors.{
  invalid_config, contains, has_control, internal_message, leaks, sanitize, write_error,
}
use feature_flag_service.Http.Errors.Safe.{IsPublic, write_error-IsPublic}

source_position_removed :
    sanitize ascii (codes " open /srv/app/store.GO:41: no such file") ≡ internal_message
unfolding sanitize leaks contains has_control is_empty
source_position_removed = refl

plain_message_kept : sanitize ascii (codes " flag must be set ") ≡ codes "flag must be set"
unfolding sanitize leaks contains has_control is_empty
plain_message_kept = refl

write_error-IsPublic_example :
    IsPublic (write_error ascii [] none invalid_config (codes "rejected at 0x1f")).envelope.message
    × (400 ≤ (write_error ascii [] none invalid_config (codes "rejected at 0x1f")).status)
    × ((write_error ascii [] none invalid_config (codes "rejected at 0x1f")).status < 600)
write_error-IsPublic_example =
    write_error-IsPublic ascii [] none invalid_config (codes "rejected at 0x1f")
