-- ===== src/Capacity/Aws.antt =====
-- pkg/capacity/aws/aws.go. The EC2 client is the interface `Ec2`, base64 and the format's %q and %f
-- are arguments, and so are the clock's reading `now` and the same as a number, `unix_nano`. A
-- method takes the memory of the provider and returns it, whatever the result.
pub mod Types
pub mod Images
pub mod Provision
pub mod Factory
pub mod Ice
pub mod Handles
pub mod Newest
mod Tests
