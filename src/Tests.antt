-- ===== src/Tests.antt =====
-- Runs of the model on concrete inputs. No file of the program is modelled here.
mod Streams
mod Payloads
mod Sockets
mod Peers
mod Sync
mod Disk
mod Uploads
mod Scans
mod Sends
mod Sessions
mod ServerRuns
