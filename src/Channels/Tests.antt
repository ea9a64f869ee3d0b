-- ===== src/Channels/Tests.antt =====
-- A webhook to a host with a public address.
use notify_relay.Channels.Webhook.{Post, Posted}

abbrev accepts : Post → Posted
accepts p = Posted.status 204
