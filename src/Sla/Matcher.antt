-- ===== src/Sla/Matcher.antt =====
-- The choice of the SLA policy of a ticket, apps/api/src/sla/domain/sla-policy-matcher.ts.
pub mod Laws
use Prim.Native.String.{String}
use text.Mathlib.Text.{◌==◌ as str_eq}
use support_desk.Base.{ℕ, Text, Bool, true, ◌&&◌, Option, List, [], ◌∷◌, any, find}
use support_desk.Base.Sort.{sort_by}
use support_desk.Ticketing.Ticket.{
  TicketPriority, low, medium, high, urgent, TicketChannel, web, email, api, chat, TicketType,
  question, incident, problem, feature_request,
}

pub record SlaMatchTicketAttributes : Type 0 where
  pub channel : TicketChannel
  pub priority : TicketPriority
  pub type : TicketType

-- The priority of a policy is its place in the order of the policies.
pub record SlaPolicyMatchCandidate : Type 0 where
  pub id : Text
  pub match_channels : List String
  pub match_priorities : List String
  pub match_types : List String
  pub priority : ℕ

-- The enums as the texts that the lists hold.
abbrev pub channel_name : TicketChannel → String
channel_name web = "WEB"
channel_name email = "EMAIL"
channel_name api = "API"
channel_name chat = "CHAT"

abbrev pub priority_name : TicketPriority → String
priority_name low = "LOW"
priority_name medium = "MEDIUM"
priority_name high = "HIGH"
priority_name urgent = "URGENT"

abbrev pub type_name : TicketType → String
type_name question = "QUESTION"
type_name incident = "INCIDENT"
type_name problem = "PROBLEM"
type_name feature_request = "FEATURE_REQUEST"

unfoldable pub matches_list : List String → String → Bool
matches_list [] value = true
matches_list (a ∷ allowed) value = any (λ x. str_eq x value) (a ∷ allowed)

-- The three tests of the loop.
unfoldable pub matches : SlaMatchTicketAttributes → SlaPolicyMatchCandidate → Bool
unfolding matches_list
matches ticket c =
    matches_list c.match_priorities (priority_name ticket.priority)
    && matches_list c.match_types (type_name ticket.type)
    && matches_list c.match_channels (channel_name ticket.channel)

-- The loop returns the first candidate, in the order of the priorities, that passes the tests.
unfoldable pub select_matching_sla_policy :
    List SlaPolicyMatchCandidate → SlaMatchTicketAttributes → Option SlaPolicyMatchCandidate
select_matching_sla_policy candidates ticket =
    find (matches ticket) (sort_by (λ c. c.priority) candidates)
